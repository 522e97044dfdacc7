-- ===== src/Program/Entry/Child.antt =====
-- Process 1, and the child that it starts.
use git_sync.Common.{ℕ, ◌≡◌, refl, ap, false, Option, none, some, List, ◌∷◌, ◌++◌, ℤ, Text, All}
use git_sync.Os.{Env, Machine, ok, pure}
use git_sync.GitConfig.{ParseError}
use git_sync.Main.{exit}
use git_sync.Pid1.{Arrival, died, sigchld, run_init, start_error, ran, re_run}
use git_sync.Pid1.Exit.{
  Death, wait_status, shell_code, CanBe, exit_code-wait_status, IsQuiet, run_init-passes_on,
}
use git_sync.Program.Entry.{Process, went, rerun_exit, main_entry}

re_run-started :
    (bin : Text) (args : List Text) (start_process : Text → List Text → Option ℕ)
    (arrivals : List Arrival) (firstborn : ℕ)
    → start_process bin args ≡ some firstborn
    → re_run (some bin) args start_process arrivals ≡ ran (run_init firstborn arrivals)
unfolding re_run
re_run-started bin args start_process arrivals firstborn h =
    ap (λ r. elim r [ none ↦ start_error | some f ↦ ran (run_init f arrivals) ]) h

module _ (parse_float parse_duration : Text → Option ℤ)
    (start_process : Text → List Text → Option ℕ) (env : Env) (look_path : Text → Option Text)
    (error_text : ParseError → Text) where
  module _ (quiet : List Arrival) (last : Arrival) (rest : List Arrival) where
    -- As process 1, if its binary can be started with its arguments behind the name, and that child
    -- survives the first signals, all of which reach it, and has died by the next one: the program makes no
    -- call of its own, and exits with the child's code, or with 128 and the signal that killed it.
    pub main_entry-child :
        (n : ℕ) (p : Process) (m : Machine) (bin : Text) (firstborn : ℕ) (d : Death)
        → p.pid ≡ 1
        → p.link ≡ some bin
        → start_process bin p.args ≡ some firstborn
        → All (IsQuiet firstborn) quiet
        → last.kill_failed ≡ false
        → (sigchld firstborn last.waits).0 ≡ died (wait_status d)
        → CanBe d
        → main_entry parse_float parse_duration start_process
            (quiet ++ last ∷ rest)
            env
            look_path
            error_text
            n
            p
            m
          ≡ (ok (went (exit (shell_code d))), m)
    unfolding main_entry rerun_exit pure shell_code
    main_entry-child n p m bin firstborn d one linked started q k dies can =
        rw
          (
            one,
            linked,
            re_run-started bin p.args start_process (quiet ++ last ∷ rest) firstborn started,
            run_init-passes_on firstborn quiet last rest (wait_status d) q k dies,
            exit_code-wait_status d can,
          )
          refl
