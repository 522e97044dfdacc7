-- ===== src/Program/Notify/Lost.antt =====
-- What `--one-time` makes of the webhook.
use git_sync.Common.{
  ◌≡◌, refl, ◌∙◌, ap, arith, inl, true, false, some, List, [], ◌∷◌, Text, is_empty,
}
use git_sync.Flags.{Flags}
use git_sync.Os.{Env, Machine, ok}
use git_sync.Os.Runs.{in_full}
use git_sync.Main.{begin, exit, sync, loop_step}
use git_sync.Main.Failures.{next_of, loop_step-next}
use git_sync.Main.Metrics.{counts, count, loop_step-counts}
use git_sync.Webhook.{set, notify, send, State, start, send_hash, proceed_with, finish}
use git_sync.Program.Notify.{
  webhook_of, make_webhook, System, is_running, hand_over, carry_on, go_on, Turn, iterates, goes_on,
  Runs, launches, turns,
}

-- The goroutine waits at the channel as it did at its start, and has not taken the event in it.
abbrev pub untaken : Text → State
untaken hash = record start { data_ = record { full = true; hash = hash }; given = hash ∷ [] }

hand_over-first :
    (hash : Text) (before after : List Text)
    → before ≡ []
    → after ≡ hash ∷ []
    → hand_over before after [] start ≡ untaken hash
unfolding hand_over carry_on send_hash send finish proceed_with set notify
hand_over-first hash before after none_before one_behind = rw (none_before, one_behind) refl

module _ (env : Env) (fl : Flags) where
  -- Nothing happens behind the end of the program.
  exit-Turn : {s s' : System} → s.next ≡ exit 0 → ¬ Turn env fl s s'
  unfolding is_running
  exit-Turn {s} e (iterates l next m earlier during later at step) = ground (arith, e, at)
  exit-Turn {s} e (goes_on failed running) = ground (arith, running, ap is_running e)

  -- With `--one-time` and a webhook configured: when the first sync changes the checkout, the program can
  -- end, with 0, behind the call of `Send`, while the goroutine still waits at the channel and has not
  -- taken the event for the hash, so that nothing was delivered; and no turn follows in which it could.
  pub one_time-loses :
      (m : Machine) (hash : Text)
      → fl.one_time ≡ true
      → is_empty fl.webhook_url ≡ false
      → m.sent ≡ []
      → (sync env fl m).0 ≡ ok (true, hash)
      → (s : System) × Runs env fl m s
        × (s.next ≡ exit 0)
        × (s.sender ≡ untaken hash)
        × ((s' : System) → ¬ Turn env fl s s')
  unfolding go_on next_of counts count make_webhook
  one_time-loses m hash one configured none_sent synced = (
    _,
    turns (launches _ made)
        (iterates begin (exit 0) (loop_step env fl begin m).1 [] [] [] refl (in_full ends)),
    refl,
    hand_over-first hash m.sent _ none_sent sent,
    λ s'. exit-Turn refl,
  )
    where
      made : make_webhook fl ≡ some (webhook_of fl)
      made = rw configured refl

      ends : (loop_step env fl begin m).0 ≡ ok (exit 0)
      ends =
          loop_step-next env fl begin m (inl (rw one refl))
          ∙ ap (λ r. ok (next_of env fl begin r)) synced

      sent : (loop_step env fl begin m).1.sent ≡ hash ∷ []
      sent =
          ap (λ c. c.handed) (loop_step-counts env fl begin m)
          ∙ (ap (λ r. (count fl r (counts m)).handed) synced ∙ rw (configured, none_sent) refl)
