-- ===== src/Webhooks/Delivered.antt =====
-- What an event sends, and to which webhooks.
use registry_ui_go.Base.{
  ℕ, ◌+◌, ◌≡◌, refl, ◌⊎◌, inl, inr, Bool, true, false, Option, none, some, List, [], ◌∷◌, Text,
  ◌&&◌, All, In, Bool-cases, if_cases,
}
use registry_ui_go.Store.{Db, Webhook}
use registry_ui_go.Store.Run.{on}
use registry_ui_go.Store.Extras.{list_webhooks}
use registry_ui_go.Webhooks.{
  Net, Delivery, is_none, is_delivered, deliveries, fire_webhook_event, webhook_matches_event,
  validate_webhook_url, secret_of,
}
use registry_ui_go.Webhooks.Guarded.{Guarded, validate_webhook_url_iff}

module _ (net : Net) (allow : Bool) (event : Text) where
  -- A delivery goes to a webhook of the list that is enabled, waits for the event, and has an address
  -- that the guard accepts at that moment; its header is the one of the webhook.
  abbrev pub Sent : List Webhook → Delivery → Type 0
  Sent hooks x =
      In x.webhook hooks
      × (x.webhook.enabled ≡ true)
      × (webhook_matches_event x.webhook.events event ≡ true)
      × (x.header ≡ secret_of x.webhook.secret_header)
      × Guarded net allow x.moment x.webhook.url

  later-Sent :
      (hook : Webhook) (hooks : List Webhook) (xs : List Delivery)
      → All (Sent hooks) xs
      → All (Sent (hook ∷ hooks)) xs
  later-Sent hook hooks [] h = tt
  later-Sent hook hooks (x ∷ xs) ((member, enabled, waits, header, valid), h) =
      ((inr member, enabled, waits, header, valid), later-Sent hook hooks xs h)

  accepted : (o : Option Text) → is_none o ≡ true → o ≡ none
  accepted none e = refl
  accepted (some error) e = cc

  three : (a b c : Bool) → (a && b && c) ≡ true → (a ≡ true) × (b ≡ true) × (c ≡ true)
  three true true c e = (refl, refl, e)
  three true false c e = cc
  three false b c e = cc

  deliveries-Sent :
      (moment : ℕ) (hooks : List Webhook)
      → All (Sent hooks) (deliveries net allow moment event hooks)
  unfolding deliveries is_delivered
  deliveries-Sent moment [] = tt
  deliveries-Sent moment (hook ∷ hooks) =
      let rest =
        later-Sent hook hooks (deliveries net allow (moment + 1) event hooks)
          (deliveries-Sent (moment + 1) hooks) in
      if_cases (All (Sent (hook ∷ hooks))) (is_delivered net allow moment event hook) _ _
        (λ yes.
          let (enabled, waits, valid) =
            three hook.enabled (webhook_matches_event hook.events event)
              (is_none (validate_webhook_url net allow moment hook.url)) yes in
          (
            (
              inl refl,
              enabled,
              waits,
              refl,
              (validate_webhook_url_iff net allow moment hook.url).0 (accepted _ valid),
            ),
            rest,
          ))
        (λ _. rest)

-- Every delivery of an event goes to a stored webhook that is enabled, waits for the event, and has
-- an address that the guard accepts at that moment; its header is the one of the webhook. Where the
-- query of the webhooks fails, nothing is sent.
pub fire_webhook_event-Sent :
    (net : Net) (allow : Bool) (moment : ℕ) (event : Text) (d : Db)
    → All (Sent net allow event d.webhooks) (fire_webhook_event net allow moment event d).0
      × ((d.fails d.clock ≡ false) ⊎ ((fire_webhook_event net allow moment event d).0 ≡ []))
unfolding fire_webhook_event list_webhooks on
fire_webhook_event-Sent net allow moment event d = elim (Bool-cases (d.fails d.clock)) [
  | inl fails ↦ rw fails (tt, inr refl)
  | inr works ↦ rw works (deliveries-Sent net allow event moment d.webhooks, inl refl)
]
