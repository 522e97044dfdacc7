-- ===== src/Main/Cleared.antt =====
-- What the loop leaves of the error file behind a sync that succeeded.
use git_sync.Common.{
  ◌≡◌, refl, ap, subst, ℕ, zero, suc, Bool, true, false, List, ◌∷◌, Text, is_empty,
}
use git_sync.Path.{join_path}
use git_sync.Flags.{Flags}
use git_sync.Os.{
  Call, remove_file, sleep, Env, Machine, Failure, Result, ok, err, Io, ◌>>=◌, os-machine, perform,
}
use git_sync.Os.Hoare.{Any, any-Leads, After, Leads, Leads-pure, Leads-bind, Leads-if}
use git_sync.Os.Runs.{calls}
use git_sync.Logger.{ignore, delete_error_file}
use git_sync.Main.{
  Loop, Next, again, exit, sleep_forever, too_many_failures, pause, wait_time, next_sync,
  after_rev_is_hash, first_sync, after_failure, after_success, after_sync, loop_step,
}

-- Behind a success, the last call but the pause before the next sync is the removal of the error file.
abbrev pub IsCleared : Text → ℕ → Next → List Call → Type 0
IsCleared file wait (again l) cs = elim l.fail_count [
  | zero ↦ (before : List Call) × (cs ≡ sleep wait ∷ remove_file file ∷ before)
  | suc _ ↦ Unit
]
IsCleared file wait (exit zero) cs = (before : List Call) × (cs ≡ remove_file file ∷ before)
IsCleared file wait (exit (suc _)) cs = Unit
IsCleared file wait sleep_forever cs = (before : List Call) × (cs ≡ remove_file file ∷ before)

module _ (env : Env) (fl : Flags) (configured : is_empty fl.error_file ≡ false) where
  abbrev file : Text
  file = join_path fl.root fl.error_file

  abbrev Clears : Io Next → Type 0
  Clears x = Leads Any x (λ next m. IsCleared file (wait_time fl.wait) next (calls m.history)) Any

  IsRemoved : Machine → Type 0
  IsRemoved m = (before : List Call) × (calls m.history ≡ remove_file file ∷ before)

  first : {A : Type 0} (x : Io A) {f : A → Io Next} → ((a : A) → Clears (f a)) → Clears (x >>= f)
  first x h = Leads-bind (λ _. Any) (any-Leads x) h

  delete-Leads : Leads Any (delete_error_file env fl) (λ _. IsRemoved) Any
  unfolding IsRemoved delete_error_file ignore perform calls
  delete-Leads = rw configured (record { leads = λ m _. rw os-machine (calls m.history, refl) })

  pause-Leads :
      Leads IsRemoved
        (pause env fl)
        (λ _ m.
          (before : List Call) × (calls m.history
            ≡ sleep (wait_time fl.wait) ∷ remove_file file ∷ before))
        Any
  unfolding pause ignore IsRemoved perform calls
  pause-Leads = record {
    leads = λ m h. rw os-machine (h.0, ap (λ cs. sleep (wait_time fl.wait) ∷ cs) h.1);
  }

  next_sync-Clears : Clears (next_sync env fl)
  unfolding next_sync
  next_sync-Clears =
      Leads-bind (λ _. IsRemoved) delete-Leads
        λ _. Leads-bind _ pause-Leads λ _. Leads-pure _ λ m h. h

  after_rev_is_hash-Clears : (r : Result Bool) → Clears (after_rev_is_hash env fl r)
  unfolding after_rev_is_hash IsRemoved
  after_rev_is_hash-Clears (err e) = first _ λ _. Leads-pure (exit 1) λ m h. tt
  after_rev_is_hash-Clears (ok true) =
      Leads-bind (λ _. IsRemoved) delete-Leads λ _. Leads-pure sleep_forever λ m h. h
  after_rev_is_hash-Clears (ok false) = next_sync-Clears

  first_sync-Clears : Clears (first_sync env fl)
  unfolding first_sync IsRemoved
  first_sync-Clears =
      Leads-if fl.one_time
        (Leads-bind (λ _. IsRemoved) delete-Leads λ _. Leads-pure (exit 0) λ m h. h)
        (first _ after_rev_is_hash-Clears)

  after_failure-Clears : (loop : Loop) (e : Failure) → Clears (after_failure env fl loop e)
  unfolding after_failure
  after_failure-Clears loop e =
      Leads-if (too_many_failures env fl loop.fail_count)
        (first _ λ _. Leads-pure (exit 1) λ m h. tt)
        (first _ λ _. first _ λ _. Leads-pure _ λ m h. tt)

  after_success-Clears : (loop : Loop) → Clears (after_success env fl loop)
  unfolding after_success
  after_success-Clears loop = Leads-if loop.initial_sync first_sync-Clears next_sync-Clears

  after_sync-Clears : (loop : Loop) (r : Result (Bool × Text)) → Clears (after_sync env fl loop r)
  unfolding after_sync
  after_sync-Clears loop (err e) = first _ λ _. after_failure-Clears loop e
  after_sync-Clears loop (ok (true, hash)) = first _ λ _. first _ λ _. after_success-Clears loop
  after_sync-Clears loop (ok (false, hash)) = first _ λ _. after_success-Clears loop

  ends_IsCleared :
      (r : Result Next × Machine) (next : Next) (m : Machine)
      → After {A = Next} (λ n k. IsCleared file (wait_time fl.wait) n (calls k.history)) Any r
      → r ≡ (ok next, m)
      → IsCleared file (wait_time fl.wait) next (calls m.history)
  ends_IsCleared r next m h e =
      subst (After {A = Next} (λ n k. IsCleared file (wait_time fl.wait) n (calls k.history)) Any) e
        h

  -- With an error file configured: whenever an iteration of the loop ends with no failure counted, with the
  -- exit code 0, or asleep for good, its last call on the disk is the removal of the error file, behind
  -- which there is only the pause before the next sync.
  pub loop_step-IsCleared :
      (loop : Loop) (m last : Machine) (next : Next)
      → loop_step env fl loop m ≡ (ok next, last)
      → IsCleared (join_path fl.root fl.error_file) (wait_time fl.wait) next (calls last.history)
  unfolding loop_step
  loop_step-IsCleared loop m last next e =
      ends_IsCleared _ next last ((first _ (after_sync-Clears loop)).leads m tt) e
