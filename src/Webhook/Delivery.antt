-- ===== src/Webhook/Delivery.antt =====
-- The newest hash reaches the webhook.
use git_sync.Common.{◌≡◌, refl, ◌∙◌, sym, ap, arith, ℕ, zero, suc, Bool, false}
use git_sync.Webhook.{
  State, waiting, looking, sending, backing_off, Phase, advance, return, Reachable, steps, advances,
}
use git_sync.Webhook.Mailbox.{IsSettled, run_for, return-Reachable, Reachable-settles}
use git_sync.Webhook.Order.{newest, Reachable-IsOrdered}

run_for-Reachable : (n : ℕ) (s : State) → Reachable s → Reachable (run_for n s)
unfolding run_for
run_for-Reachable zero s r = r
run_for-Reachable (suc n) s r = run_for-Reachable n (advance false s) (steps r (advances false))

-- The sender gives no hash itself.
pub advance-given : (failed : Bool) (s : State) → (advance failed s).given ≡ s.given
unfolding advance
advance-given failed s = by_phase s.phase
  where
    by_phase : (p : Phase) → (advance failed (record s { phase = p })).given ≡ s.given
    by_phase waiting = ground arith
    by_phase looking = ground arith
    by_phase (sending h) = ground arith
    by_phase backing_off = refl

run_for-given : (n : ℕ) (s : State) → (run_for n s).given ≡ s.given
unfolding run_for
run_for-given zero s = refl
run_for-given (suc n) s = run_for-given n (advance false s) ∙ advance-given false s

-- From every state that any interleaving of the main loop and the sender can reach, also within a call
-- of `Send`: when the call has returned, six steps of the sender whose requests do not fail, with no
-- further hash given, leave it waiting at an empty channel, and the hash that was given last is the one
-- that was delivered last.
pub Reachable-delivers :
    (s : State)
    → Reachable s
    → IsSettled (run_for 6 (return s))
      × (newest (run_for 6 (return s)).delivered ≡ newest (return s).given)
Reachable-delivers s r =
    let back = return s in
    let settled = Reachable-settles s r in
    let o = Reachable-IsOrdered (run_for-Reachable 6 back (return-Reachable s r)) in
    (settled, sym o.last ∙ (sym settled.newest ∙ (o.latest ∙ ap newest (run_for-given 6 back))))
