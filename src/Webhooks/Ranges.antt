-- ===== src/Webhooks/Ranges.antt =====
-- The internal IPv4 addresses as ranges of numbers.
use registry_ui_go.Base.{ℕ, ◌+◌, ◌*◌, ◌≤◌, ◌<◌, ◌≡◌, ◌⊎◌, ◌↔◌, true, [], ◌∷◌, arith}
use registry_ui_go.Webhooks.Addresses.{is_internal_ip, is_internal_v4}

-- An address as a number.
abbrev pub as_number : ℕ → ℕ → ℕ → ℕ → ℕ
as_number a b c d = ((a * 256 + b) * 256 + c) * 256 + d

-- All addresses from one to another.
abbrev pub Within : ℕ → ℕ → ℕ → Type 0
Within low high n = (low ≤ n) × (n ≤ high)

abbrev pub Internal : ℕ → Type 0
Internal n =
    (n ≡ 0)
    ⊎ Within (as_number 10 0 0 0) (as_number 10 255 255 255) n
    ⊎ Within (as_number 127 0 0 0) (as_number 127 255 255 255) n
    ⊎ Within (as_number 169 254 0 0) (as_number 169 254 255 255) n
    ⊎ Within (as_number 172 16 0 0) (as_number 172 31 255 255) n
    ⊎ Within (as_number 192 168 0 0) (as_number 192 168 255 255) n
    ⊎ Within (as_number 224 0 0 0) (as_number 224 0 0 255) n

-- An IPv4 address of four bytes is taken for internal exactly if it is 0.0.0.0 or lies in one of the
-- ranges 10.0.0.0/8, 127.0.0.0/8, 169.254.0.0/16, 172.16.0.0/12, 192.168.0.0/16 and 224.0.0.0/24.
pub is_internal_ip_iff :
    (a b c d : ℕ)
    → a < 256
    → b < 256
    → c < 256
    → d < 256
    → (is_internal_ip (a ∷ b ∷ c ∷ d ∷ []) ≡ true) ↔ Internal (as_number a b c d)
unfolding is_internal_ip is_internal_v4
is_internal_ip_iff a b c d ha hb hc hd = (λ e. ground arith, λ h. ground arith)
