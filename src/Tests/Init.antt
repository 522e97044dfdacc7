-- ===== src/Tests/Init.antt =====
-- The init handler.
use git_sync.Common.{◌≡◌, ◌<◌, refl, arith, true, false, [], ◌∷◌}
use git_sync.Pid1.{
  nothing, child, Arrival, sigchld_number, exits, exit_code, run_init, sigchld, behind_reaping,
}
use git_sync.Pid1.Reap.{sigchld-others, IsOther}
use git_sync.Pid1.Exit.{
  killed, wait_status, shell_code, CanBe, exit_code-wait_status, run_init-bound, forwarded,
  run_init-passes_on,
}

-- SIGTERM, behind which the firstborn lives on, and SIGCHLD, when it is killed by it.
abbrev term : Arrival
term = record { signal = 15; kill_failed = false; waits = nothing ∷ [] }

abbrev last : Arrival
last = record { signal = sigchld_number; kill_failed = false; waits = child 9 0 ∷ child 7 15 ∷ [] }

sigchld-others_example : sigchld 7 (child 9 0 ∷ child 7 15 ∷ []) ≡ sigchld 7 (child 7 15 ∷ [])
unfolding IsOther
sigchld-others_example = sigchld-others 7 (child 9 0 ∷ []) (child 7 15 ∷ []) ((refl, refl), tt)

exit_code-wait_status_example :
    exit_code (wait_status (killed 9 true)) ≡ exits (shell_code (killed 9 true))
unfolding CanBe
exit_code-wait_status_example = exit_code-wait_status (killed 9 true) (omega arith, omega arith)

run_init-passes_on_example :
    run_init 7 (term ∷ last ∷ []) ≡ (exit_code 15, forwarded (term ∷ last ∷ []))
unfolding sigchld
run_init-passes_on_example =
    run_init-passes_on 7 (term ∷ []) last [] 15 (record { passed = refl; alive = refl }, tt) refl
      refl

run_init-bound_example : 143 < 256
unfolding run_init sigchld exit_code behind_reaping
run_init-bound_example = run_init-bound 7 (term ∷ last ∷ []) 143 refl
