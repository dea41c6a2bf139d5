-- ===== src/Webhooks/Guarded.antt =====
-- Which addresses the guard of webhooks accepts.
use registry_ui_go.Base.{
  ℕ, ◌≡◌, refl, sym, subst, ◌⊎◌, ◌↔◌, inl, inr, Bool, true, false, Option, none, some, List, [],
  ◌∷◌, if◌then◌else◌, Text, codes, text_eq_iff, ◌==◌, text_eq_instance, ◌&&◌, not, is_empty, any,
  trim_space, All, Bool-cases, arith,
}
use registry_ui_go.Webhooks.Addresses.{Ip, is_internal_ip}
use registry_ui_go.Webhooks.{Net, addresses, check_addresses, check_url, validate_webhook_url}

-- No address of the list is internal.
abbrev pub AllPublic : List Ip → Type 0
AllPublic = All (λ ip. is_internal_ip ip ≡ false)

any-AllPublic : (ips : List Ip) → (any is_internal_ip ips ≡ false) ↔ AllPublic ips
unfolding any
any-AllPublic [] = (λ _. tt, λ _. refl)
any-AllPublic (ip ∷ ips) =
    let (to, from) = any-AllPublic ips in
    elim (Bool-cases (is_internal_ip ip)) [
      | inl h ↦ rw h (λ e. cc, λ (p, _). cc)
      | inr h ↦ rw h (λ e. (refl, to e), λ (_, p). from p)
    ]

refuses_then :
    (b : Bool) (e : Text) (o : Option Text)
    → (if b then some e else o) ≡ none
    → (b ≡ false) × (o ≡ none)
refuses_then true e o h = cc
refuses_then false e o h = (refl, h)

accepts_or : (b : Bool) (o : Option Text) → (if b then none else o) ≡ none → (b ≡ true) ⊎ (o ≡ none)
accepts_or true o h = inl refl
accepts_or false o h = inr h

scheme_iff :
    (scheme : Text)
    → ((not (scheme == codes "http") && not (scheme == codes "https")) ≡ false)
      ↔ ((scheme ≡ codes "http") ⊎ (scheme ≡ codes "https"))
scheme_iff scheme =
    ground (arith, text_eq_iff scheme (codes "http"), text_eq_iff scheme (codes "https"))

module _ (net : Net) (allow : Bool) (moment : ℕ) where
  -- The host was found, and every address that it stands for is public.
  abbrev pub PublicHost : Text → Type 0
  PublicHost host = (ips : List Ip) × (addresses net allow moment host ≡ some ips) × AllPublic ips

  -- The scheme is one of two, there is a host, and it is a public one or all hosts are allowed.
  abbrev pub GuardedUrl : Text → Text → Type 0
  GuardedUrl scheme host =
      ((scheme ≡ codes "http") ⊎ (scheme ≡ codes "https"))
      × (is_empty host ≡ false)
      × ((allow ≡ true) ⊎ PublicHost host)

  abbrev pub Guarded : Text → Type 0
  Guarded raw =
      (scheme : Text) × (host : Text) × (net.parse_url (trim_space raw) ≡ some (scheme, host))
      × GuardedUrl scheme host

  found_iff :
      (o : Option (List Ip))
      → (check_addresses net allow o ≡ none) ↔ ((ips : List Ip) × (o ≡ some ips) × AllPublic ips)
  unfolding check_addresses
  found_iff none = (λ e. cc, λ (ips, e, h). cc)
  found_iff (some ips) = elim (Bool-cases (any is_internal_ip ips)) [
    | inl h ↦ rw h (λ e. cc, λ (jps, e, p). absurd (never jps e p h))
    | inr h ↦ rw h (λ e. (ips, refl, (any-AllPublic ips).0 h), λ _. refl)
  ]
    where
      never :
          (jps : List Ip) → some ips ≡ some jps → AllPublic jps → any is_internal_ip ips ≡ true → ⊥
      never jps e p h = cc ((any-AllPublic jps).1 p)

  -- What the parts of a parsed URL are guarded by.
  Opened : Option (Text × Text) → Type 0
  Opened none = ⊥
  Opened (some (scheme, host)) = GuardedUrl scheme host

  url_iff :
      (scheme host : Text)
      → (check_url net allow moment (some (scheme, host)) ≡ none) ↔ GuardedUrl scheme host
  unfolding check_url
  url_iff scheme host =
      let (to_scheme, from_scheme) = scheme_iff scheme in
      let (to_found, from_found) = found_iff (addresses net allow moment host) in
      (
        λ e.
            let (known, e1) = refuses_then _ _ _ e in
            let (filled, e2) = refuses_then _ _ _ e1 in
            (to_scheme known, filled, allows_or to_found (accepts_or _ _ e2)),
        λ (known, filled, h). rw (from_scheme known, filled) (allowed_by from_found allow h),
      )
    where
      allows_or : {A : Type 0} {B : Type 0} {C : Type 0} → (B → C) → A ⊎ B → A ⊎ C
      allows_or f (inl a) = inl a
      allows_or f (inr b) = inr (f b)

      allowed_by :
          {A : Type 0} {o : Option Text}
          → (A → o ≡ none)
          → (b : Bool) → (b ≡ true) ⊎ A
          → (if b then none else o) ≡ none
      allowed_by f true h = refl
      allowed_by f false (inl e) = cc
      allowed_by f false (inr a) = f a

  parsed_iff :
      (o : Option (Text × Text))
      → (check_url net allow moment o ≡ none)
        ↔ ((scheme : Text) × (host : Text) × (o ≡ some (scheme, host)) × GuardedUrl scheme host)
  unfolding check_url Opened
  parsed_iff none = (λ e. cc, λ (s, h, e, g). cc)
  parsed_iff (some (scheme, host)) =
      let (to, from) = url_iff scheme host in
      (λ e. (scheme, host, refl, to e), λ (s, h, e, g). from (subst Opened (sym e) g))

-- A webhook's address is accepted exactly if it parses to a URL of the scheme http or https with a
-- host, and either private addresses are allowed, or the host resolves and none of the addresses
-- that it resolves to is internal.
pub validate_webhook_url_iff :
    (net : Net) (allow : Bool) (moment : ℕ) (raw : Text)
    → (validate_webhook_url net allow moment raw ≡ none) ↔ Guarded net allow moment raw
unfolding validate_webhook_url
validate_webhook_url_iff net allow moment raw =
    parsed_iff net allow moment (net.parse_url (trim_space raw))
