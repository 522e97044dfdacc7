-- ===== src/Tests/Programs.antt =====
-- The program as a whole, in the world where every command succeeds.
use git_sync.Common.{
  ◌≡◌, refl, true, none, [], ◌∷◌, Text, codes, equal, contains, split, trim, trim_left, has_prefix,
  join,
}
use git_sync.Os.{Machine, os, perform, ◌>>=◌, pure, fail, attempt, or_else}
use git_sync.Path.{
  join_path, clean, clean_path, rel, go_up, push_part, render, equal_parts, rel_parts, rel_clean,
}
use git_sync.Git.{get_revs, rev_is_hash, is_hash_of_kind, local_hash_for_rev, remote_hash_for_ref}
use git_sync.Command.{run_command, run_command_with_stdin, run_result}
use git_sync.Worktree.{
  cleanup_work_tree, update_symlink, old_worktree, set_repo_ready, run_hook, clean_up_old,
  saved_errors, swap_and_clean_up, update_submodules, change_permissions, maybe_sparse,
}
use git_sync.Sync.{
  sync_repo, sync_to, add_worktree_and_swap, refresh_credentials, needed_hash, if_resolved,
  build_worktree, check_out_and_swap,
}
use git_sync.GitConfig.{KeyVal, ParseError, parse_git_configs}
use git_sync.Disk.{IsSafe}
use git_sync.Sync.Ready.{was_flipped}
use git_sync.Logger.{ignore, delete_error_file}
use git_sync.Setup.{set_up, set_configs, set_parsed, setup_extra_git_configs}
use git_sync.Os.Runs.{calls}
use git_sync.Setup.Configs.{configs_onto, setup_extra_git_configs-runs}
use git_sync.Main.{
  main_loop, loop_step, after_sync, send_webhook, update_sync_metrics, after_success, first_sync,
  after_rev_is_hash, next_sync, pause,
}
use git_sync.Main.Validate.{validate, fill_dest, early_guards, late_guards, go_through}
use git_sync.Program.{health, main_program, behind_checks, behind_set_up}
use git_sync.Program.Whole.{main_program-IsSafe, main_program-health}
use git_sync.Tests.World.{flags, healthy, start, healthy-PrintsHashes}

abbrev pub text_of : ParseError → Text
text_of _ = []

main_program-IsSafe_example :
    IsSafe (main_program healthy (λ _. none) text_of 2 flags start).1.history
unfolding fill_dest
main_program-IsSafe_example =
    main_program-IsSafe healthy (λ _. none) text_of 2 flags start healthy-PrintsHashes tt

abbrev last : Machine
last = (main_program healthy (λ _. none) text_of 1 flags start).1

main_program-health_example : was_flipped last.history ≡ true
unfolding equal os perform get_revs local_hash_for_rev remote_hash_for_ref run_command
    run_command_with_stdin run_result pure fail attempt or_else ◌>>=◌ go_up push_part render
    equal_parts rel_parts rel_clean has_prefix trim_left trim split contains join rel clean
    join_path clean_path rev_is_hash is_hash_of_kind cleanup_work_tree update_symlink old_worktree
    set_repo_ready run_hook clean_up_old saved_errors swap_and_clean_up update_submodules
    change_permissions maybe_sparse sync_repo sync_to add_worktree_and_swap refresh_credentials
    needed_hash if_resolved build_worktree check_out_and_swap health main_program behind_checks
    behind_set_up validate fill_dest early_guards late_guards go_through set_up main_loop loop_step
    after_sync send_webhook update_sync_metrics after_success first_sync after_rev_is_hash next_sync
    pause ignore delete_error_file
main_program-health_example =
    main_program-health healthy (λ _. none) text_of 1 flags start refl refl

abbrev pair : KeyVal
pair = record { key = codes "user.name"; val = codes "x y" }

abbrev configured : Machine
configured = (setup_extra_git_configs healthy flags text_of (codes "user.name:x y") start).1

setup_extra_git_configs-runs_example :
    calls configured.history ≡ configs_onto flags (pair ∷ []) (calls start.history)
unfolding setup_extra_git_configs parse_git_configs set_parsed set_configs ◌>>=◌ or_else pure
    run_command run_command_with_stdin run_result perform equal
setup_extra_git_configs-runs_example =
    setup_extra_git_configs-runs healthy flags text_of (codes "user.name:x y") (pair ∷ []) start
      configured refl refl
