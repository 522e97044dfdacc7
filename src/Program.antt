-- ===== src/Program.antt =====
-- `main` of cmd/git-sync/main.go as a whole: the checks on the flags, the set-up, and the loop. The
-- goroutines are left out; Notify.antt has that of the webhook, and Entry.antt what comes before the
-- checks.
pub mod Whole
pub mod Entry
pub mod ErrorFile
pub mod Notify
use git_sync.Common.{ℕ, Bool, true, false, Option, if◌then◌else◌, Text}
use git_sync.Flags.{Flags}
use git_sync.Os.{Env, Machine, Result, ok, err, Io, ◌>>=◌, ◌>>◌, pure, attempt}
use git_sync.GitConfig.{ParseError}
use git_sync.Main.{begin, Next, exit, main_loop}
use git_sync.Main.Validate.{Check, shows_version, refused, accepted, validate}
use git_sync.Setup.{handle_error, set_up}

-- The handler of `/`: the status that it answers with.
unfoldable pub health : Machine → ℕ
health m = if m.repo_ready then 200 else 503

module _ (env : Env) (look_path : Text → Option Text) (error_text : ParseError → Text) where
  -- Behind the set-up; an error of it is the end of the program.
  unfoldable pub behind_set_up : ℕ → Flags → Result (Unit {0}) → Io Next
  behind_set_up n fl (err e) = pure (exit 1)
  behind_set_up n fl (ok _) = main_loop env fl n begin

  unfoldable pub behind_checks : ℕ → Flags → Check → Io Next
  behind_checks n fl shows_version = pure (exit 0)
  behind_checks n fl (refused print_usage message) =
      attempt (handle_error env fl error_text {A = Unit {0}} message) >>= λ _. pure (exit 1)
  behind_checks n fl (accepted fl') = attempt (set_up env fl' error_text) >>= behind_set_up n fl'

  -- With a number of iterations of the loop.
  unfoldable pub main_program : ℕ → Flags → Io Next
  main_program n fl = behind_checks n fl (validate look_path fl)
