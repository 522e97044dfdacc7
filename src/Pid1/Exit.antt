-- ===== src/Pid1/Exit.antt =====
-- The exit code of the init handler, and the signals that it passes on.
use git_sync.Common.{
  ℕ, ◌≡◌, ◌<◌, ◌+◌, ◌*◌, arith, Bool, true, false, List, [], ◌∷◌, ◌++◌, if◌then◌else◌, ◌==◌, All,
}
use git_sync.Pid1.{
  Reaped, died, lives, wait_error, pending, sigchld, Arrival, sigchld_number, exits, kill_error,
  exit_code, run_init, behind_reaping,
}

-- How a process ends, and what `wait4` says of it on Linux: the signal in the low seven bits with the
-- core flag above, or the code in the second byte.
pub data Death : Type 0 where
  exit : ℕ → Death
  killed : ℕ → Bool → Death

unfoldable pub wait_status : Death → ℕ
wait_status (exit code) = code * 256
wait_status (killed signal core) = signal + (if core then 128 else 0)

unfoldable pub shell_code : Death → ℕ
shell_code (exit code) = code
shell_code (killed signal core) = 128 + signal

unfoldable pub CanBe : Death → Type 0
CanBe (exit code) = code < 256
CanBe (killed signal core) = (0 < signal) × (signal < 127)

-- The handler exits with the code of the process, or with 128 and the signal that killed it, as a
-- shell does.
pub exit_code-wait_status : (d : Death) → CanBe d → exit_code (wait_status d) ≡ exits (shell_code d)
unfolding exit_code wait_status shell_code CanBe
exit_code-wait_status (exit code) h = grind arith
exit_code-wait_status (killed signal true) h = grind arith
exit_code-wait_status (killed signal false) h = grind arith

-- Whatever the statuses are, an exit code fits in a byte.
exit_code-bound : (status c : ℕ) → exit_code status ≡ exits c → c < 256
unfolding exit_code
exit_code-bound status c h = ground arith

-- Whatever signals arrive and whatever the kernel answers, an exit code of the handler fits in a byte.
pub run_init-bound :
    (firstborn : ℕ) (arrivals : List Arrival) (c : ℕ)
    → (run_init firstborn arrivals).0 ≡ exits c
    → c < 256
unfolding run_init behind_reaping
run_init-bound firstborn [] c h = ground arith
run_init-bound firstborn (a ∷ rest) c h =
    by_test (run_init-bound firstborn rest c) (a.signal == sigchld_number) a.kill_failed h
  where
    by_reaped :
        ((run_init firstborn rest).0 ≡ exits c → c < 256)
        → (r : Reaped) → (behind_reaping r (run_init firstborn rest)).0 ≡ exits c
        → c < 256
    by_reaped later (died status) e = exit_code-bound status c e
    by_reaped later lives e = later e
    by_reaped later wait_error e = ground arith
    by_reaped later pending e = ground arith

    by_test :
        ((run_init firstborn rest).0 ≡ exits c → c < 256)
        → (is_child is_failed : Bool)
        → (let r = behind_reaping (sigchld firstborn a.waits).0 (run_init firstborn rest) in
            (if is_child
              then r
              else if is_failed
              then (kill_error, [])
              else (r.0, a.signal ∷ r.1)).0
            ≡ exits c)
        → c < 256
    by_test later true is_failed e = by_reaped later _ e
    by_test later false true e = ground arith
    by_test later false false e = by_reaped later _ e

-- The signals that are not SIGCHLD.
pub forwarded : List Arrival → List ℕ
forwarded [] = []
forwarded (a ∷ rest) =
    if a.signal == sigchld_number then forwarded rest else a.signal ∷ forwarded rest

-- It is passed on, and the firstborn lives on.
pub record IsQuiet (firstborn : ℕ) (a : Arrival) : Type 0 where
  pub passed : a.kill_failed ≡ false
  pub alive : (sigchld firstborn a.waits).0 ≡ lives

-- Signals that the firstborn survives are passed on to it in their order, all but SIGCHLD, and with
-- them the last one before its death, whose status gives the outcome; what comes later is not looked
-- at.
pub run_init-passes_on :
    (firstborn : ℕ) (quiet : List Arrival) (last : Arrival) (rest : List Arrival) (status : ℕ)
    → All (IsQuiet firstborn) quiet
    → last.kill_failed ≡ false
    → (sigchld firstborn last.waits).0 ≡ died status
    → run_init firstborn (quiet ++ last ∷ rest) ≡ (exit_code status, forwarded (quiet ++ last ∷ []))
unfolding run_init behind_reaping forwarded
run_init-passes_on firstborn [] last rest status q k d = rw (d, k) ground arith
run_init-passes_on firstborn (a ∷ quiet) last rest status q k d =
    rw (q.0.alive, q.0.passed, run_init-passes_on firstborn quiet last rest status q.1 k d) ground
      arith
