-- ===== src/Pid1.antt =====
-- The init handler of pkg/pid1/pid1.go: `sigchld`, `runInit` and `ReRun`. What the kernel answers is given: for
-- each signal that arrives, the result of passing it on, and the results of the calls of `wait4`
-- behind it, as many as are made.
pub mod Reap
pub mod Exit
use git_sync.Common.{
  ℕ, ◌+◌, ◌/◌, ◌%◌, Bool, true, false, not, ◌&&◌, Option, none, some, List, [], ◌∷◌, if◌then◌else◌,
  ◌==◌, Text,
}

-- A result of `wait4(-1, &status, WNOHANG, nil)`: no child has changed, a child and its status, or an
-- error.
pub data Wait : Type 0 where
  nothing : Wait
  child : ℕ → ℕ → Wait
  failed : Wait

-- What `sigchld` returns: the status of the firstborn if it has died, or that it lives. `pending`
-- is a call of `wait4` whose result is not given.
pub data Reaped : Type 0 where
  died : ℕ → Reaped
  lives : Reaped
  wait_error : Reaped
  pending : Reaped

-- The result, and the results of `wait4` that were not asked for.
unfoldable pub sigchld : ℕ → List Wait → Reaped × List Wait
sigchld firstborn [] = (pending, [])
sigchld firstborn (failed ∷ rest) = (wait_error, rest)
sigchld firstborn (nothing ∷ rest) = (lives, rest)
sigchld firstborn (child pid status ∷ rest) =
    if pid == firstborn
    then (died status, rest)
    else if pid == 0
    then (lives, rest)
    else sigchld firstborn rest

-- The methods of `syscall.WaitStatus`, a uint32.
abbrev pub status_signal : ℕ → ℕ
status_signal w = w % 128

abbrev pub is_exited : ℕ → Bool
is_exited w = w % 128 == 0

abbrev pub is_signaled : ℕ → Bool
is_signaled w = not (w % 128 == 127) && not (w % 128 == 0)

abbrev pub exit_status : ℕ → ℕ
exit_status w = (w / 256) % 256

abbrev pub sigchld_number : ℕ
sigchld_number = 17

-- A signal, whether passing it on failed, and the results of `wait4` behind it.
pub record Arrival : Type 0 where
  pub signal : ℕ
  pub kill_failed : Bool
  pub waits : List Wait

-- What `runInit` returns. `waiting` is a wait for a signal, or for `wait4`, that is not over.
pub data Outcome : Type 0 where
  exits : ℕ → Outcome
  kill_error : Outcome
  reap_error : Outcome
  unhandled : ℕ → Outcome
  waiting : Outcome

unfoldable pub exit_code : ℕ → Outcome
exit_code status =
    if is_signaled status
    then exits (128 + status_signal status)
    else if is_exited status
    then exits (exit_status status)
    else unhandled status

-- Behind a call of `sigchld`; `later` is what the signals still to come lead to.
unfoldable pub behind_reaping : Reaped → Outcome × List ℕ → Outcome × List ℕ
behind_reaping (died status) later = (exit_code status, [])
behind_reaping lives later = later
behind_reaping wait_error later = (reap_error, [])
behind_reaping pending later = (waiting, [])

-- The outcome, and the signals that were passed on to the firstborn, in their order.
unfoldable pub run_init : ℕ → List Arrival → Outcome × List ℕ
run_init firstborn [] = (waiting, [])
run_init firstborn (a ∷ rest) =
    let (outcome, passed) =
      behind_reaping (sigchld firstborn a.waits).0 (run_init firstborn rest) in
    if a.signal == sigchld_number
    then (outcome, passed)
    else if a.kill_failed
    then (kill_error, [])
    else (outcome, a.signal ∷ passed)

-- What `ReRun` returns: an error in front of `runInit`, or the outcome of that, with the signals that
-- were passed on.
pub data Rerun : Type 0 where
  link_error : Rerun
  start_error : Rerun
  ran : Outcome × List ℕ → Rerun

-- The link `/proc/self/exe`, if it can be read; the arguments of the program behind its name; how a
-- process is started with a binary and its arguments, which gives its number or fails.
unfoldable pub re_run :
    Option Text → List Text → (Text → List Text → Option ℕ) → List Arrival → Rerun
re_run none args start_process arrivals = link_error
re_run (some bin) args start_process arrivals = elim (start_process bin args) [
  | none ↦ start_error
  | some firstborn ↦ ran (run_init firstborn arrivals)
]
