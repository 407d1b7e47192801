-- ===== src/Webhook/Effects.antt =====
-- What a conditional update of the inbox does.
use sinkronis_backend.Common.{ℕ, Bool, true, ◌≡◌, refl, ◌⊎◌, inl, inr, Bool-cases, Option-cases}
use sinkronis_backend.Common.Table.{find, put}
use sinkronis_backend.Database.{Db, WebhookEvent, Returns, returns}
use sinkronis_backend.Webhook.Inbox.{update_event_where}

-- No error.
abbrev pub Never : Db → Type 0
Never db = ⊥

pub update_event_where-Returns :
    (i : ℕ) (p : WebhookEvent → Bool) (f : WebhookEvent → WebhookEvent) (db : Db)
    → Returns Never
        (λ n db'.
          ((n ≡ 0) × (db' ≡ db))
          ⊎ ((e : WebhookEvent) × (n ≡ 1)
              × (p e ≡ true)
              × (db' ≡ record db { webhooks = put i (f e) db.webhooks })))
        (update_event_where i p f db)
unfolding update_event_where
update_event_where-Returns i p f db = elim (Option-cases (find i db.webhooks)) [
  | inl absent ↦ rw (absent, update_event_where) (returns (inl (refl, refl)))
  | inr (e, there) ↦ elim (Bool-cases (p e)) [
    | inl meets ↦ rw (there, meets, update_event_where) (returns (inr (e, refl, meets, refl)))
    | inr fails ↦ rw (there, fails, update_event_where) (returns (inl (refl, refl)))
  ]
]
