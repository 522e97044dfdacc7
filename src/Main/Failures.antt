-- ===== src/Main/Failures.antt =====
-- How the loop of `main` goes on behind a sync, and when it gives up.
use git_sync.Common.{
  ◌⊎◌, inl, inr, ◌≡◌, refl, ◌∙◌, ap, sym, subst, arith, ℕ, zero, suc, ◌+◌, ◌<◌, Bool, true, false,
  not, ◌&&◌, if◌then◌else◌, pos, negsuc, Text,
}
use git_sync.Flags.{Flags}
use git_sync.Os.{Env, Machine, Failure, Result, ok, err, Io, ◌>>=◌, ◌>>◌, pure, attempt}
use git_sync.Os.Runs.{bind-ok, attempt-any}
use git_sync.Os.Hoare.{Any, After, Leads, Leads-pure, Leads-bind, Leads-weaken}
use git_sync.Logger.{ignore}
use git_sync.Logger.Total.{log_error-ok, delete_error_file-ok}
use git_sync.Main.{
  Loop, begin, Next, again, exit, update_sync_metrics, send_webhook, too_many_failures, pause,
  next_sync, first_sync, after_failure, after_success, after_sync, sync, loop_step, main_loop,
}

-- A function of this error condition returns no error.
abbrev Never : Machine → Type 0
Never m = ⊥

-- The step ends in `next`.
abbrev EndsIn : Io Next → Next → Type 0
EndsIn x next = Leads Any x (λ n _. n ≡ next) Never

EndsIn-result : {x : Io Next} {next : Next} (m : Machine) → EndsIn x next → (x m).0 ≡ ok next
EndsIn-result {x} {next} m h = from (x m) (h.leads m tt)
  where
    from : (r : Result Next × Machine) → After {A = Next} (λ n _. n ≡ next) Never r → r.0 ≡ ok next
    from (ok a, m') q = ap ok q
    from (err e, m') q = absurd q

Total-bind :
    {x : Io (Unit {0})} {y : Io Next} {next : Next}
    → ((m : Machine) → x m ≡ (ok tt, (x m).1))
    → EndsIn y next
    → EndsIn (x >> y) next
Total-bind {x} h hy = Leads-bind (λ _. Any) (record { leads = λ m _. rw (h m) tt }) λ _. hy

EndsIn-bind :
    {x : Io Next} (f : Next → Io Next) {next : Next} {last : Next}
    → EndsIn x next
    → EndsIn (f next) last
    → EndsIn (x >>= f) last
EndsIn-bind f {next} {last} hx hf =
    Leads-bind (λ n _. n ≡ next) hx
      λ n. record {
        leads = λ m q.
            subst (λ k. After {A = Next} (λ n _. n ≡ last) Never (f k m)) (sym q) (hf.leads m tt);
      }

pure-EndsIn : (next : Next) → EndsIn (pure next) next
pure-EndsIn next = Leads-pure next λ m _. refl

EndsIn-if :
    (b : Bool) {x y : Io Next} {n k : Next}
    → EndsIn x n
    → EndsIn y k
    → EndsIn (if b then x else y) (if b then n else k)
EndsIn-if true hx hy = hx
EndsIn-if false hx hy = hy

-- The middle case, which does not arise.
EndsIn-first :
    (first one : Bool) (y : Io Next) {x z : Io Next} {n k : Next}
    → (first && not one) ≡ false
    → EndsIn x n
    → EndsIn z k
    → EndsIn (if first then if one then x else y else z) (if first then n else k)
EndsIn-first true true y h hx hz = hx
EndsIn-first true false y h hx hz = ground arith
EndsIn-first false one y h hx hz = hz

module _ (env : Env) (fl : Flags) where
  pause-ok : (m : Machine) → pause env fl m ≡ (ok tt, (pause env fl m).1)
  unfolding pause ignore
  pause-ok m = refl

  next_sync-EndsIn :
      EndsIn (next_sync env fl) (again (record { initial_sync = false; fail_count = 0 }))
  unfolding next_sync
  next_sync-EndsIn = Total-bind (delete_error_file-ok env fl) (Total-bind pause-ok (pure-EndsIn _))

  -- What the loop does behind a sync, where the revision is not asked about.
  unfoldable pub next_of : Loop → Result (Bool × Text) → Next
  unfolding too_many_failures
  next_of loop (err e) =
      if too_many_failures env fl loop.fail_count
      then exit 1
      else again (record loop { fail_count = suc loop.fail_count })
  next_of loop (ok _) =
      if loop.initial_sync then exit 0 else again (record { initial_sync = false; fail_count = 0 })

  after_failure-EndsIn :
      (loop : Loop) (e : Failure) → EndsIn (after_failure env fl loop e) (next_of loop (err e))
  unfolding after_failure next_of
  after_failure-EndsIn loop e =
      EndsIn-if (too_many_failures env fl loop.fail_count)
        (Total-bind (log_error-ok env fl e _ _) (pure-EndsIn (exit 1)))
        (Total-bind (log_error-ok env fl e _ _) (Total-bind pause-ok (pure-EndsIn _)))

  after_success-EndsIn :
      (loop : Loop) (r : Bool × Text)
      → (loop.initial_sync && not fl.one_time) ≡ false
      → EndsIn (after_success env fl loop) (next_of loop (ok r))
  unfolding after_success first_sync next_of
  after_success-EndsIn loop r h =
      EndsIn-first loop.initial_sync fl.one_time _ h
        (Total-bind (delete_error_file-ok env fl) (pure-EndsIn (exit 0))) next_sync-EndsIn

  abbrev pub IsError : Result (Bool × Text) → Type 0
  IsError (ok _) = ⊥
  IsError (err e) = Unit

  after_sync-EndsIn :
      (loop : Loop) (r : Result (Bool × Text))
      → ((loop.initial_sync && not fl.one_time) ≡ false) ⊎ IsError r
      → EndsIn (after_sync env fl loop r) (next_of loop r)
  unfolding after_sync update_sync_metrics send_webhook
  after_sync-EndsIn loop (err e) h = Total-bind (λ m. refl) (after_failure-EndsIn loop e)
  after_sync-EndsIn loop (ok (true, hash)) (inl h) =
      Total-bind (λ m. ground arith)
        (Total-bind (λ m. refl) (after_success-EndsIn loop (true, hash) h))
  after_sync-EndsIn loop (ok (false, hash)) (inl h) =
      Total-bind (λ m. refl) (after_success-EndsIn loop (false, hash) h)
  after_sync-EndsIn loop (ok (true, hash)) (inr e) = absurd e
  after_sync-EndsIn loop (ok (false, hash)) (inr e) = absurd e

  -- For every iteration but the one whose sync is the first to succeed, without `--one-time`: it ends
  -- the program with 1 if its sync fails once more than is allowed, and with 0 if it succeeds for the
  -- first time; otherwise the loop goes on, with one failure more or with none.
  pub loop_step-next :
      (loop : Loop) (m : Machine)
      → ((loop.initial_sync && not fl.one_time) ≡ false) ⊎ IsError (sync env fl m).0
      → (loop_step env fl loop m).0 ≡ ok (next_of loop (sync env fl m).0)
  unfolding loop_step
  loop_step-next loop m h =
      ap (λ r. r.0) (bind-ok _ (after_sync env fl loop) (attempt-any (sync env fl) refl))
      ∙ EndsIn-result (sync env fl m).1 (after_sync-EndsIn loop (sync env fl m).0 h)

  abbrev pub Fails : Type 0
  Fails = (m : Machine) → IsError (sync env fl m).0

  refused :
      (loop : Loop) (r : Result (Bool × Text))
      → Leads
          (λ _. IsError r)
          (after_sync env fl loop r)
          (λ n _. n ≡ (
            if too_many_failures env fl loop.fail_count
            then exit 1
            else again (record loop { fail_count = suc loop.fail_count })))
          Never
  unfolding after_sync update_sync_metrics next_of
  refused loop (ok a) = record { leads = λ m e. absurd e }
  refused loop (err e) =
      Leads-weaken (λ m _. tt) (Total-bind (λ m. refl) (after_failure-EndsIn loop e))

  failed_step :
      (loop : Loop)
      → Fails
      → EndsIn (loop_step env fl loop) (
          if too_many_failures env fl loop.fail_count
          then exit 1
          else again (record loop { fail_count = suc loop.fail_count }))
  unfolding loop_step attempt
  failed_step loop fails =
      Leads-bind (λ r _. IsError r) (record { leads = λ m _. fails m }) λ r. refused loop r

  loop_at : ℕ → Loop
  loop_at k = record { initial_sync = true; fail_count = k }

  -- A failure that is not one too many is counted.
  retried :
      (k : ℕ)
      → Fails
      → too_many_failures env fl k ≡ false
      → EndsIn (loop_step env fl (loop_at k)) (again (loop_at (suc k)))
  unfolding loop_at
  retried k fails few =
      subst
        (λ b. EndsIn (loop_step env fl (loop_at k)) (if b then exit 1 else again (loop_at (suc k))))
        few (failed_step (loop_at k) fails)

  aborted :
      (k : ℕ)
      → Fails
      → too_many_failures env fl k ≡ true
      → EndsIn (loop_step env fl (loop_at k)) (exit 1)
  unfolding loop_at
  aborted k fails many =
      subst
        (λ b. EndsIn (loop_step env fl (loop_at k)) (if b then exit 1 else again (loop_at (suc k))))
        many (failed_step (loop_at k) fails)

  module _ (fails : Fails) (t : ℕ)
      (few : (j : ℕ) → j < t → too_many_failures env fl j ≡ false) where
    -- As long as the failures are not too many.
    retries : (n k : ℕ) → k + n ≡ t → EndsIn (main_loop env fl n (loop_at k)) (again (loop_at t))
    unfolding main_loop
    retries zero k q =
        subst (λ j. EndsIn (pure (again (loop_at k))) (again (loop_at j))) (omega arith)
          (pure-EndsIn (again (loop_at k)))
    retries (suc n) k q =
        EndsIn-bind _ (retried k fails (few k (omega arith))) (retries n (suc k) (omega arith))

    gives_up :
        (n k : ℕ)
        → k + n ≡ t
        → too_many_failures env fl t ≡ true
        → EndsIn (main_loop env fl (suc n) (loop_at k)) (exit 1)
    unfolding main_loop
    gives_up zero k q many =
        EndsIn-bind _
          (aborted k fails (subst (λ j. too_many_failures env fl j ≡ true) (omega arith) many))
          (pure-EndsIn (exit 1))
    gives_up (suc n) k q many =
        EndsIn-bind _ (retried k fails (few k (omega arith)))
          (gives_up n (suc k) (omega arith) many)

  -- With `--max-sync-failures` not below 0, if every sync fails, then the loop, from its begin, still
  -- goes on behind as many syncs as that number says, and behind one more the program exits with 1.
  pub main_loop-gives_up :
      (max : ℕ) (m : Machine)
      → fl.max_sync_failures ≡ pos max
      → Fails
      → ((main_loop env fl max begin m).0
          ≡ ok (again (record { initial_sync = true; fail_count = max })))
        × ((main_loop env fl (suc max) begin m).0 ≡ ok (exit 1))
  unfolding loop_at too_many_failures
  main_loop-gives_up max m q fails = (
    EndsIn-result m (retries fails max few max 0 (omega arith)),
    EndsIn-result m (gives_up fails max few max 0 (omega arith) (rw q ground arith)),
  )
    where
      few : (j : ℕ) → j < max → too_many_failures env fl j ≡ false
      few j h = rw q ground arith

  -- With `--max-sync-failures=-1`, if every sync fails, then the loop, from its begin, goes on behind any
  -- number of syncs, with all of them counted.
  pub main_loop-goes_on :
      (n : ℕ) (m : Machine)
      → fl.max_sync_failures ≡ negsuc 0
      → Fails
      → (main_loop env fl n begin m).0 ≡ ok (again (record { initial_sync = true; fail_count = n }))
  unfolding loop_at too_many_failures
  main_loop-goes_on n m q fails =
      EndsIn-result m (retries fails n (λ j h. rw q refl) n 0 (omega arith))
