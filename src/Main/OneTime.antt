-- ===== src/Main/OneTime.antt =====
-- `--one-time`: how the loop of `main` ends.
use git_sync.Common.{
  ◌≡◌, refl, ◌∙◌, sym, ap, subst, arith, ℕ, zero, suc, ◌+◌, ◌<◌, Bool, true, false, if◌then◌else◌,
  Text, inl,
}
use git_sync.Flags.{Flags}
use git_sync.Os.{Env, Machine, Result, ok, err, Io, pure}
use git_sync.Os.Runs.{bind-ok}
use git_sync.Main.{
  Loop, begin, Next, again, exit, sleep_forever, too_many_failures, sync, loop_step, main_loop,
}
use git_sync.Main.Failures.{next_of, loop_step-next}
use git_sync.Main.Metrics.{Counts, counts, count, loop_step-counts}

-- Before the first success, behind a number of failures.
abbrev pub failed_times : ℕ → Loop
failed_times k = record { initial_sync = true; fail_count = k }

module _ (env : Env) (fl : Flags) where
  -- An exit code of `n` iterations behind `k` failures, with what was counted before and since. Either one
  -- sync succeeded, behind `j` failures; or the last of `j` and one failures was one too many.
  pub data Ending (k n : ℕ) (c c' : Counts) : ℕ → Type 0 where
    succeeds :
        (j : ℕ)
        → j < n
        → c'.failed ≡ c.failed + j
        → c'.succeeded + c'.unchanged ≡ c.succeeded + c.unchanged + 1
        → Ending k n c c' 0
    gives_up :
        (j : ℕ)
        → j < n
        → c'.failed ≡ c.failed + j + 1
        → c'.succeeded + c'.unchanged ≡ c.succeeded + c.unchanged
        → too_many_failures env fl (k + j) ≡ true
        → Ending k n c c' 1

  -- It goes on only if all syncs failed, and never sleeps for ever.
  abbrev pub Ends : ℕ → ℕ → Counts → Result Next × Machine → Type 0
  Ends k n c (ok (again loop), m) =
      (loop ≡ failed_times (k + n)) × (counts m ≡ record c { failed = c.failed + n })
  Ends k n c (ok (exit code), m) = Ending k n c (counts m) code
  Ends k n c (ok sleep_forever, m) = ⊥
  Ends k n c (err e, m) = ⊥

  abbrev one_failure : Counts → Counts
  one_failure c = record c { failed = c.failed + 1 }

  later_Ending :
      {k n code : ℕ} {c c' : Counts}
      → Ending (suc k) n (one_failure c) c' code
      → Ending k (suc n) c c' code
  later_Ending {k} (succeeds j lt f s) = succeeds (suc j) (omega arith) (omega arith) s
  later_Ending {k} (gives_up j lt f s many) =
      gives_up (suc j) (omega arith) (omega arith) s
        (subst (λ i. too_many_failures env fl i ≡ true) (omega arith) many)

  later_Ends :
      (k n : ℕ) (c : Counts) (r : Result Next × Machine)
      → Ends (suc k) n (one_failure c) r
      → Ends k (suc n) c r
  later_Ends k n c (ok (again loop), m) (l, q) =
      (l ∙ ap failed_times (omega arith), q ∙ ap (λ f. record c { failed = f }) (omega arith))
  later_Ends k n c (ok (exit code), m) e = later_Ending e
  later_Ends k n c (ok sleep_forever, m) e = e
  later_Ends k n c (err e', m) e = e

  -- Behind one iteration.
  behind : ℕ → Next → Io Next
  behind n next = elim next [
    | again l ↦ main_loop env fl n l
    | exit code ↦ pure (exit code)
    | sleep_forever ↦ pure sleep_forever
  ]

  step-behind :
      (n : ℕ) (loop : Loop) (m : Machine) (next : Next)
      → (loop_step env fl loop m).0 ≡ ok next
      → main_loop env fl (suc n) loop m ≡ behind n next (loop_step env fl loop m).1
  unfolding main_loop behind
  step-behind n loop m next h =
      bind-ok (loop_step env fl loop) _
        (ap {B = Result Next × Machine} (λ r. (r, (loop_step env fl loop m).1)) h)

  -- The three ways in which an iteration can end.
  module _ (n k : ℕ) (m : Machine) where
    m' : Machine
    m' = (loop_step env fl (failed_times k) m).1

    -- The goal, from what comes behind the iteration.
    by_step :
        (next : Next)
        → (loop_step env fl (failed_times k) m).0 ≡ ok next
        → Ends k (suc n) (counts m) (behind n next m')
        → Ends k (suc n) (counts m) (main_loop env fl (suc n) (failed_times k) m)
    unfolding m'
    by_step next h e =
        subst (Ends k (suc n) (counts m)) (sym (step-behind n (failed_times k) m next h)) e

    by_failure :
        (b : Bool)
        → too_many_failures env fl k ≡ b
        → (loop_step env fl (failed_times k) m).0
          ≡ ok (if b then exit 1 else again (failed_times (suc k)))
        → counts m' ≡ one_failure (counts m)
        → Ends (suc k) n (counts m') (main_loop env fl n (failed_times (suc k)) m')
        → Ends k (suc n) (counts m) (main_loop env fl (suc n) (failed_times k) m)
    unfolding behind pure
    by_failure true many h q rest = by_step (exit 1) h (
        gives_up 0 (omega arith) (ap (λ c. c.failed) q ∙ omega arith)
          (ap (λ c. c.succeeded + c.unchanged) q)
          (subst (λ i. too_many_failures env fl i ≡ true) (omega arith) many))
    by_failure false few h q rest = by_step (again (failed_times (suc k))) h (
        later_Ends k n (counts m) _
          (subst (λ c. Ends (suc k) n c (main_loop env fl n (failed_times (suc k)) m')) q rest))

    by_result :
        (r : Result (Bool × Text))
        → (loop_step env fl (failed_times k) m).0 ≡ ok (next_of env fl (failed_times k) r)
        → counts m' ≡ count fl r (counts m)
        → Ends (suc k) n (counts m') (main_loop env fl n (failed_times (suc k)) m')
        → Ends k (suc n) (counts m) (main_loop env fl (suc n) (failed_times k) m)
    unfolding next_of count behind pure
    by_result (err e) h q rest = by_failure (too_many_failures env fl k) refl h q rest
    by_result (ok (true, hash)) h q rest = by_step (exit 0) h (
        succeeds 0 (omega arith) (ap (λ c. c.failed) q ∙ omega arith)
          (ap (λ c. c.succeeded + c.unchanged) q ∙ omega arith))
    by_result (ok (false, hash)) h q rest = by_step (exit 0) h (
        succeeds 0 (omega arith) (ap (λ c. c.failed) q ∙ omega arith)
          (ap (λ c. c.succeeded + c.unchanged) q ∙ omega arith))

  from_failures :
      (n k : ℕ) (m : Machine)
      → fl.one_time ≡ true
      → Ends k n (counts m) (main_loop env fl n (failed_times k) m)
  unfolding main_loop pure m'
  from_failures zero k m one =
      (ap failed_times (omega arith), ap (λ f. record (counts m) { failed = f }) (omega arith))
  from_failures (suc n) k m one =
      by_result n k m (sync env fl m).0
        (loop_step-next env fl (failed_times k) m (inl (rw one refl)))
        (loop_step-counts env fl (failed_times k) m)
        (from_failures n (suc k) (loop_step env fl (failed_times k) m).1 one)

  -- With `--one-time`, any number of iterations from the begin of the loop end in one of three ways: all
  -- syncs failed, and the loop goes on; the program exits with 0, and exactly one sync succeeded; or it
  -- exits with 1, all syncs failed, and the last failure was one too many.
  pub main_loop-one_time :
      (n : ℕ) (m : Machine) → fl.one_time ≡ true → Ends 0 n (counts m) (main_loop env fl n begin m)
  main_loop-one_time n m one = from_failures n 0 m one
