-- ===== src/Webhook/Accepted.antt =====
-- When a request of the webhook counts as delivered.
use git_sync.Common.{
  ◌≡◌, refl, arith, ℕ, Bool, true, false, not, ◌&&◌, Option, none, some, ℤ, pos, negsuc, eq_ℤ, Text,
  ◌⊎◌, inl, inr, ◌↔◌, if◌then◌else◌,
}
use git_sync.Os.{Failure, Result, ok, err}
use git_sync.Webhook.{Webhook, Request, check_status, do_request}

-- An answer, of any status if none is asked for.
unfoldable pub Accepts : Webhook → Result ℕ → Type 0
Accepts w (err e) = ⊥
Accepts w (ok status) = (w.success ≡ negsuc 0) ⊎ (pos status ≡ w.success)

eq_ℤ_iff : (a b : ℤ) → (eq_ℤ a b ≡ true) ↔ (a ≡ b)
eq_ℤ_iff (pos a) (pos b) = ground arith
eq_ℤ_iff (pos a) (negsuc b) = ground arith
eq_ℤ_iff (negsuc a) (pos b) = ground arith
eq_ℤ_iff (negsuc a) (negsuc b) = ground arith

-- No error comes of two tests of which one holds.
neither_iff :
    {A B : Type 0} (e : Failure) (a b : Bool)
    → ((a ≡ true) ↔ A)
    → ((b ≡ true) ↔ B)
    → ((if not a && not b then some e else none) ≡ none) ↔ (A ⊎ B)
neither_iff e true b ha hb = (λ _. inl (ha.0 refl), λ _. refl)
neither_iff e false true ha hb = (λ _. inr (hb.0 refl), λ _. refl)
neither_iff e false false ha hb = (
  λ h. ground arith,
  λ s. elim s [ inl x ↦ absurd (clash (ha.1 x)) | inr y ↦ absurd (clash (hb.1 y)) ],
)
  where
    clash : false ≡ true → ⊥
    clash h = ground arith

-- Two causes of an error, one behind the other.
first_iff :
    {A : Type 0} (o rest : Option Failure)
    → ((rest ≡ none) ↔ A)
    → (elim o [ some e ↦ some e | none ↦ rest ] ≡ none) ↔ ((o ≡ none) × A)
first_iff none rest h = (λ e. (refl, h.0 e), λ e. h.1 e.1)
first_iff (some e) rest h = (λ q. ground arith, λ q. ground arith)

module _ (refuses : Text → Text → Option Failure) (client : Request → Result ℕ) (w : Webhook) where
  check_status_iff : (r : Result ℕ) → (check_status refuses client w r ≡ none) ↔ Accepts w r
  unfolding check_status Accepts
  check_status_iff (err e) = (λ h. ground arith, λ h. absurd h)
  check_status_iff (ok status) =
      neither_iff _ _ _ (eq_ℤ_iff w.success (negsuc 0)) (eq_ℤ_iff (pos status) w.success)

  -- `Do` returns no error exactly if the request can be made, the client gets an answer, and its status
  -- is the one that `--webhook-success-status` asks for, or that is -1.
  pub do_request_iff :
      (hash : Text)
      → (do_request refuses client w hash ≡ none) ↔ (
          (refuses w.method w.url ≡ none)
          × Accepts w (client (record { method = w.method; url = w.url; gitsync_hash = hash })))
  unfolding do_request
  do_request_iff hash =
      first_iff (refuses w.method w.url) _
        (check_status_iff (client (record { method = w.method; url = w.url; gitsync_hash = hash })))
