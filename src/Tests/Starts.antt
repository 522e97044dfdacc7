-- ===== src/Tests/Starts.antt =====
-- Starts of the program: as process 1, with nothing but a repository, and in a world where no command
-- succeeds.
use git_sync.Common.{
  ◌≡◌, refl, arith, true, false, some, none, Option, List, [], ◌∷◌, if◌then◌else◌, Text, codes,
  equal, ℤ, ℕ,
}
use git_sync.Flags.{Flags}
use git_sync.Os.{Env, run, ok, ◌>>=◌, pure}
use git_sync.Flags.Parse.{set_flag_defaults, defined_flags, lookup, Other}
use git_sync.Flags.Defaults.Bare.{IsBare, bare_flags}
use git_sync.Main.{exit, begin, main_loop}
use git_sync.Main.Validate.{fill_dest}
use git_sync.Pid1.{Arrival, nothing, child, sigchld, sigchld_number}
use git_sync.Pid1.Exit.{killed, shell_code, CanBe, wait_status}
use git_sync.Program.Entry.{Process, went, main_entry}
use git_sync.Program.Entry.Child.{main_entry-child}
use git_sync.Program.Entry.Bare.{main_entry-bare}
use git_sync.Tests.World.{healthy, start, flags, failed, done}
use git_sync.Tests.Programs.{text_of}

abbrev getenv : Text → Text
getenv key = if equal key (codes "GIT_SYNC_REPO") then codes "https://x/y" else []

abbrev glog : Other
glog = record { name = codes "logtostderr"; no_argument = true; accepts = λ _. true }

abbrev process : Process
process = record {
  pid = 1;
  link = some (codes "/git-sync");
  args = codes "--one-time" ∷ [];
  getenv = getenv;
  others = glog ∷ [];
}

abbrev no_time : Text → Option ℤ
no_time _ = none

abbrev as_seven : Text → List Text → Option ℕ
as_seven bin args = some 7

-- SIGTERM, and the death that it brings.
abbrev term : Arrival
term = record { signal = 15; kill_failed = false; waits = nothing ∷ [] }

abbrev last : Arrival
last = record { signal = sigchld_number; kill_failed = false; waits = child 7 15 ∷ [] }

main_entry-child_example :
    main_entry no_time no_time as_seven
      (term ∷ last ∷ [])
      healthy
      (λ _. none)
      text_of
      3
      process
      start
    ≡ (ok (went (exit (shell_code (killed 15 false)))), start)
unfolding sigchld CanBe wait_status
main_entry-child_example =
    main_entry-child no_time no_time as_seven healthy (λ _. none) text_of (term ∷ []) last [] 3
      process start (codes "/git-sync") 7 (killed 15 false) refl refl refl
      (record { passed = refl; alive = refl }, tt) refl refl (omega arith, omega arith)

getenv-IsBare : IsBare getenv
unfolding equal
getenv-IsBare = record { repo = refl; unset = λ key h k. rw h refl }

abbrev plain : Process
plain = record process { pid = 2; args = [] }

glog_is_there : set_flag_defaults no_time no_time (glog ∷ []) ≡ true
unfolding set_flag_defaults lookup defined_flags equal
glog_is_there = refl

main_entry-bare_example :
    main_entry no_time no_time as_seven [] healthy (λ _. none) text_of 3 plain start
    ≡ (main_loop healthy (fill_dest (bare_flags getenv)) 3 begin >>= λ next. pure (went next)) start
main_entry-bare_example =
    main_entry-bare getenv (λ _. none) healthy text_of no_time no_time as_seven [] 3 plain start
      refl refl refl glog_is_there getenv-IsBare refl

-- No command succeeds, and each failure goes into the error file.
abbrev no_git : Env
no_git h (run cwd stdin command args) = failed
no_git h c = done (codes "/git/tmp-err-1")

abbrev telling : Flags
telling = record flags { error_file = codes "err" }
