-- ===== src/Webhooks/Addresses.antt =====
-- features.go: isInternalIP, with the tests of Go's net.IP that it is made of.
use registry_ui_go.Base.{
  ℕ, ◌/◌, ◌%◌, Bool, false, Option, some, List, [], ◌∷◌, if◌then◌else◌, Text, ◌==◌, nat_eq_instance,
  ◌&&◌, ◌||◌, length, strip_prefix, text_eq, text_eq_instance,
}

-- net.IP: 4 or 16 bytes
abbrev pub Ip : Type 0
Ip = List ℕ

-- The first bytes of an IPv4 address that is written with 16 bytes.
abbrev pub mapped : Ip
mapped = 0 ∷ 0 ∷ 0 ∷ 0 ∷ 0 ∷ 0 ∷ 0 ∷ 0 ∷ 0 ∷ 0 ∷ 255 ∷ 255 ∷ []

-- The tests of net.IP on four bytes …
unfoldable pub is_internal_v4 : ℕ → ℕ → ℕ → ℕ → Bool
is_internal_v4 a b c d =
    a == 127
    || a == 169 && b == 254
    || a == 224 && b == 0 && c == 0
    || a == 0 && b == 0 && c == 0 && d == 0
    || a == 10
    || a == 172 && b / 16 == 1
    || a == 192 && b == 168

-- … and on sixteen: ::1, fe80::/10, ff02::/16 of any flags, :: and fc00::/7
unfoldable pub is_internal_v6 : Ip → Bool
is_internal_v6 (a ∷ b ∷ rest) =
    text_eq (a ∷ b ∷ rest) (0 ∷ 0 ∷ 0 ∷ 0 ∷ 0 ∷ 0 ∷ 0 ∷ 0 ∷ 0 ∷ 0 ∷ 0 ∷ 0 ∷ 0 ∷ 0 ∷ 0 ∷ 1 ∷ [])
    || a == 254 && b / 64 == 2
    || a == 255 && b % 16 == 2
    || text_eq (a ∷ b ∷ rest) (0 ∷ 0 ∷ 0 ∷ 0 ∷ 0 ∷ 0 ∷ 0 ∷ 0 ∷ 0 ∷ 0 ∷ 0 ∷ 0 ∷ 0 ∷ 0 ∷ 0 ∷ 0 ∷ [])
    || a / 2 == 126
is_internal_v6 ip = false

unfoldable pub unless_mapped : Ip → Option Text → Bool
unless_mapped ip (some (a ∷ b ∷ c ∷ d ∷ [])) = is_internal_v4 a b c d
unless_mapped ip o = if length ip == 16 then is_internal_v6 ip else false

-- isInternalIP
unfoldable pub is_internal_ip : Ip → Bool
is_internal_ip (a ∷ b ∷ c ∷ d ∷ []) = is_internal_v4 a b c d
is_internal_ip ip = unless_mapped ip (strip_prefix ip mapped)
