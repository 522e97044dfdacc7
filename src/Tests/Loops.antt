-- ===== src/Tests/Loops.antt =====
-- The loop of `main`, and the flags.
use git_sync.Common.{codes, inl, ◌≡◌, refl, true, false, none, negsuc, is_empty, ◌↔◌}
use git_sync.Flags.{Flags}
use git_sync.Os.{Machine, ok, os, perform, ◌>>=◌, pure, fail, attempt}
use git_sync.Sync.{sync_repo, refresh_credentials, needed_hash}
use git_sync.Main.{Loop, begin, again, exit, sync, loop_step, main_loop, wait_time}
use git_sync.Main.Cleared.{IsCleared, loop_step-IsCleared}
use git_sync.Os.Runs.{calls, in_full}
use git_sync.Path.{join_path}
use git_sync.Main.Failures.{next_of, Fails, loop_step-next, main_loop-gives_up, main_loop-goes_on}
use git_sync.Main.Metrics.{counts, count, loop_step-counts}
use git_sync.Main.OneTime.{Ends, main_loop-one_time}
use git_sync.Main.Validate.{accepted, fill_dest, validate}
use git_sync.Main.Validate.Valid.{IsValid, validate_iff}
use git_sync.Tests.World.{flags, healthy, broken, start}

abbrev later : Loop
later = record { initial_sync = false; fail_count = 1 }

broken-Fails : (fl : Flags) → is_empty fl.askpass_url ≡ true → Fails broken fl
unfolding sync_repo refresh_credentials needed_hash os perform pure fail attempt ◌>>=◌
broken-Fails fl h m = rw h tt

main_loop-gives_up_example :
    ((main_loop broken flags 1 begin start).0
      ≡ ok (again (record { initial_sync = true; fail_count = 1 })))
    × ((main_loop broken flags 2 begin start).0 ≡ ok (exit 1))
main_loop-gives_up_example = main_loop-gives_up broken flags 1 start refl (broken-Fails flags refl)

abbrev patient : Flags
patient = record flags { max_sync_failures = negsuc 0 }

main_loop-goes_on_example :
    (main_loop broken patient 5 begin start).0
    ≡ ok (again (record { initial_sync = true; fail_count = 5 }))
main_loop-goes_on_example =
    main_loop-goes_on broken patient 5 start refl (broken-Fails patient refl)

loop_step-counts_example :
    counts (loop_step healthy flags begin start).1
    ≡ count flags (sync healthy flags start).0 (counts start)
loop_step-counts_example = loop_step-counts healthy flags begin start

validate_iff_example :
    (validate (λ _. none) flags ≡ accepted flags)
    ↔ (IsValid (λ _. none) (fill_dest flags) × (accepted (fill_dest flags) ≡ accepted flags))
validate_iff_example = validate_iff (λ _. none) flags flags refl

abbrev once : Flags
once = record flags { one_time = true }

main_loop-one_time_example :
    Ends healthy once 0 3 (counts start) (main_loop healthy once 3 begin start)
main_loop-one_time_example = main_loop-one_time healthy once 3 start refl

abbrev logged : Flags
logged = record flags { error_file = codes "error.json" }

abbrev behind : Machine
behind = (loop_step healthy logged later start).1

loop_step-IsCleared_example :
    IsCleared
      (join_path logged.root logged.error_file)
      (wait_time logged.wait)
      (next_of healthy logged later (sync healthy logged start).0)
      (calls behind.history)
loop_step-IsCleared_example =
    loop_step-IsCleared healthy logged refl later start behind _
      (in_full (loop_step-next healthy logged later start (inl refl)))
