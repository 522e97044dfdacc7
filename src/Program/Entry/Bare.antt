-- ===== src/Program/Entry/Bare.antt =====
-- A start with nothing but a repository.
use git_sync.Common.{
  ℕ, ◌≡◌, refl, arith, true, false, Option, none, List, [], ◌∷◌, ◌++◌, ◌==◌, ℤ, Text, codes, equal,
  is_empty, inl,
}
use git_sync.Flags.Defaults.Bare.{IsBare, bare_flags, default_flags-bare}
use git_sync.Flags.Parse.{parse_args, set_flag_defaults}
use git_sync.Os.{Env, Machine, ok, ◌>>=◌, pure, attempt}
use git_sync.Os.Runs.{bind-ok, bind-run}
use git_sync.GitConfig.{ParseError}
use git_sync.Main.{begin, main_loop}
use git_sync.Main.Validate.{validate, accepted, fill_dest, is_missing}
use git_sync.Main.Validate.Guards.{IsUnguarded, validate-IsUnguarded}
use git_sync.Main.Validate.Dest.{fill_dest-IsLeaf}
use git_sync.Setup.{set_up}
use git_sync.Pid1.{Arrival}
use git_sync.Program.{main_program, behind_checks, behind_set_up}
use git_sync.Program.Entry.{Process, went, behind_flags, main_entry}

root_given : (home : Text) → is_empty (home ++ codes "/git") ≡ false
root_given [] = refl
root_given (c ∷ home) = refl

module _ (getenv : Text → Text) (look_path : Text → Option Text) where
  bare_flags-IsUnguarded :
      IsBare getenv
      → look_path (codes "git") ≡ none
      → IsUnguarded look_path (fill_dest (bare_flags getenv))
  unfolding fill_dest equal
  bare_flags-IsUnguarded b found = record {
    repo = b.repo;
    depth = refl;
    submodules = refl;
    root = root_given (getenv (codes "HOME"));
    dest = fill_dest-IsLeaf (bare_flags getenv) refl;
    wait = refl;
    sync_timeout = refl;
    webhook = λ h. ground arith;
    git = rw (is_missing, found) refl;
    one_password = inl refl;
    username = λ h. ground arith;
    ssh = λ h. ground arith;
  }

  validate-bare_flags :
      IsBare getenv
      → look_path (codes "git") ≡ none
      → validate look_path (bare_flags getenv) ≡ accepted (fill_dest (bare_flags getenv))
  validate-bare_flags b found =
      (validate-IsUnguarded look_path (bare_flags getenv) (fill_dest (bare_flags getenv)) refl).1
        (bare_flags-IsUnguarded b found, refl)

  module _ (env : Env) (error_text : ParseError → Text) where
    set_up-bare_flags :
        (m : Machine)
        → attempt (set_up env (fill_dest (bare_flags getenv)) error_text) m ≡ (ok (ok tt), m)
    unfolding attempt set_up fill_dest ◌>>=◌ pure
    set_up-bare_flags m = refl

    main_program-bare_flags :
        (n : ℕ) (m : Machine)
        → IsBare getenv
        → look_path (codes "git") ≡ none
        → main_program env look_path error_text n (bare_flags getenv) m
          ≡ main_loop env (fill_dest (bare_flags getenv)) n begin m
    unfolding main_program behind_checks behind_set_up
    main_program-bare_flags n m b found = rw (validate-bare_flags b found) (
        bind-ok _ (behind_set_up env look_path error_text n (fill_dest (bare_flags getenv)))
          (set_up-bare_flags m))

    -- As any process but 1, with no arguments, no variable of the environment but `GIT_SYNC_REPO`, which is
    -- not empty, and `HOME`, if git is found and glog has its flag: the checks pass and the set-up makes no
    -- call, so that the program is the loop, with the defaults, and the last part of the repository's path
    -- as the name of the link.
    pub main_entry-bare :
        (parse_float parse_duration : Text → Option ℤ) (start_process : Text → List Text → Option ℕ)
        (arrivals : List Arrival) (n : ℕ) (p : Process) (m : Machine)
        → p.getenv ≡ getenv
        → (p.pid == 1) ≡ false
        → p.args ≡ []
        → set_flag_defaults parse_float parse_duration p.others ≡ true
        → IsBare getenv
        → look_path (codes "git") ≡ none
        → main_entry parse_float parse_duration start_process arrivals env look_path error_text n p
            m
          ≡ (main_loop env (fill_dest (bare_flags getenv)) n begin >>= λ next. pure (went next)) m
    unfolding main_entry parse_args behind_flags
    main_entry-bare parse_float parse_duration start_process arrivals n p m e other no_args glog b
          found =
        rw (other, glog, no_args, e, default_flags-bare getenv parse_float parse_duration b)
          (bind-run _ _ (λ next. pure (went next)) (main_program-bare_flags n m b found))
