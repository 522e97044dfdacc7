-- ===== src/Program/Entry.antt =====
-- The start of `main` in cmd/git-sync/main.go: the init handler for process 1, and the flags for any
-- other.
pub mod Child
pub mod Bare
use git_sync.Common.{ℕ, Bool, true, false, Option, none, some, List, if◌then◌else◌, ◌==◌, ℤ, Text}
use git_sync.Flags.Defaults.{default_flags}
use git_sync.Flags.Parse.{Other, Parsed, parsed, usage, wrong, parse_args, set_flag_defaults}
use git_sync.Os.{Env, Io, ◌>>=◌, pure}
use git_sync.GitConfig.{ParseError}
use git_sync.Main.{Next, exit}
use git_sync.Pid1.{
  Arrival, Outcome, exits, kill_error, reap_error, unhandled, waiting, Rerun, link_error,
  start_error, ran, re_run,
}
use git_sync.Program.{main_program}

-- What the program is started with: its number, the link to its binary, its arguments behind its name,
-- the environment, and the flags that glog and other packages define.
pub record Process : Type 0 where
  pub pid : ℕ
  pub link : Option Text
  pub args : List Text
  pub getenv : Text → Text
  pub others : List Other

-- The init handler waits, or the program went this far.
pub data Entry : Type 0 where
  reaping : Entry
  went : Next → Entry

unfoldable pub init_exit : Outcome → Entry
init_exit (exits code) = went (exit code)
init_exit kill_error = went (exit 127)
init_exit reap_error = went (exit 127)
init_exit (unhandled status) = went (exit 127)
init_exit waiting = reaping

unfoldable pub rerun_exit : Rerun → Entry
unfolding init_exit
rerun_exit link_error = went (exit 127)
rerun_exit start_error = went (exit 127)
rerun_exit (ran (outcome, passed)) = init_exit outcome

module _ (parse_float parse_duration : Text → Option ℤ)
    (start_process : Text → List Text → Option ℕ) (arrivals : List Arrival) (env : Env)
    (look_path : Text → Option Text) (error_text : ParseError → Text) where
  unfoldable pub behind_flags : ℕ → Parsed → Io Entry
  behind_flags n (parsed fl rest) =
      main_program env look_path error_text n fl >>= λ next. pure (went next)
  behind_flags n usage = pure (went (exit 0))
  behind_flags n wrong = pure (went (exit 2))

  -- A flag `logtostderr` that is missing ends in a panic, since `handleError` uses a log that is not
  -- there yet.
  unfoldable pub main_entry : ℕ → Process → Io Entry
  main_entry n p =
      if p.pid == 1
      then pure (rerun_exit (re_run p.link p.args start_process arrivals))
      else if set_flag_defaults parse_float parse_duration p.others
      then behind_flags n (
          parse_args parse_float parse_duration p.others none
            (default_flags p.getenv parse_float parse_duration) p.args)
      else pure (went (exit 2))
