-- ===== src/Tests/Syncs.antt =====
-- Syncs in the world where every command succeeds.
use git_sync.Common.{
  ◌≡◌, refl, Bool, true, false, some, [], ◌∷◌, ◌++◌, Text, codes, equal, trim, split, contains,
  join, has_prefix, trim_left,
}
use git_sync.Os.{
  run, eval_symlinks, Machine, Failure, Result, ok, os, perform, ◌>>=◌, pure, fail, attempt,
  or_else,
}
use git_sync.Path.{
  join_path, clean, clean_path, rel, go_up, push_part, render, equal_parts, rel_parts, rel_clean,
}
use git_sync.Git.{is_hash_of_kind, get_revs, rev_is_hash, local_hash_for_rev, remote_hash_for_ref}
use git_sync.Command.{run_command, run_command_with_stdin, run_failure, run_result, cmd_for_log}
use git_sync.Worktree.{
  tmplink, git, depth_args, cleanup_work_tree, update_symlink, old_worktree, set_repo_ready,
  run_hook, clean_up_old, saved_errors, swap_and_clean_up, update_submodules, change_permissions,
  maybe_sparse,
}
use git_sync.Sync.{
  sync_repo, sync_to, add_worktree_and_swap, refresh_credentials, needed_hash, if_resolved,
  build_worktree, check_out_and_swap,
}
use git_sync.Os.Runs.{calls}
use git_sync.Worktree.Calls.{update_symlink-calls}
use git_sync.Sync.Outcome.{sync_to-unresolved}
use git_sync.Disk.Link.{published}
use git_sync.Disk.{view}
use git_sync.Tests.World.{flags, failed, denied, remote_hash, healthy, start, remote_hash-IsName}

abbrev sync : Machine → Result (Bool × Text) × Machine
sync =
    sync_repo healthy flags flags.repo flags.branch flags.rev flags.depth flags.root flags.dest []
      flags.submodules

abbrev target : Text
target = join_path flags.root flags.dest

abbrev fetched : Machine
fetched =
    (git healthy flags flags.root
      (codes "fetch"
        ∷ codes "-f"
        ∷ codes "--tags"
        ∷ (depth_args flags.depth ++ (codes "origin" ∷ flags.branch ∷ [])))
      start).1

abbrev unresolved : Machine
unresolved = (rev_is_hash healthy flags [] flags.root fetched).1

abbrev reason : Failure
reason =
    run_failure (cmd_for_log flags.git_cmd (codes "cat-file" ∷ codes "-t" ∷ [] ∷ [])) denied.message
      failed

sync_to-unresolved_example :
    let (r, last) =
      sync_to healthy flags flags.root flags.dest flags.branch flags.rev flags.depth
        flags.submodules
        (some [])
        start in
    (r ≡ ok (true, []))
    × (view last.history ≡ view start.history)
    × (last.repo_ready ≡ false)
    × (published target last.history ≡ published target start.history)
unfolding equal perform rev_is_hash run_command run_command_with_stdin run_result ◌>>=◌ join_path
    clean clean_path go_up push_part render split join
sync_to-unresolved_example =
    sync_to-unresolved healthy flags flags.root flags.dest flags.branch flags.rev flags.depth
      flags.submodules [] target start fetched unresolved [] reason refl refl refl

-- A whole sync ends with the new hash, and a repository that is ready.
sync-start : ((sync start).0 ≡ ok (true, remote_hash)) × ((sync start).1.repo_ready ≡ true)
unfolding equal os perform get_revs local_hash_for_rev remote_hash_for_ref run_command
    run_command_with_stdin run_result pure fail attempt or_else ◌>>=◌ go_up push_part render
    equal_parts rel_parts rel_clean has_prefix trim_left trim split contains join rel clean
    join_path clean_path rev_is_hash is_hash_of_kind cleanup_work_tree update_symlink old_worktree
    set_repo_ready run_hook clean_up_old saved_errors swap_and_clean_up update_submodules
    change_permissions maybe_sparse sync_repo sync_to add_worktree_and_swap refresh_credentials
    needed_hash if_resolved build_worktree check_out_and_swap
sync-start = (refl, refl)

abbrev replaced : Machine
replaced =
    (update_symlink healthy flags flags.root flags.dest (join_path flags.root remote_hash) start).1

update_symlink-calls_example :
    calls replaced.history
    ≡ run flags.root [] (codes "mv") (codes "-T" ∷ tmplink ∷ flags.dest ∷ [])
      ∷ run flags.root [] (codes "ln") (codes "-snf" ∷ remote_hash ∷ tmplink ∷ [])
      ∷ eval_symlinks target
      ∷ []
unfolding equal os perform update_symlink old_worktree attempt or_else run_command
    run_command_with_stdin run_result pure fail ◌>>=◌ rel join_path clean clean_path go_up push_part
    render equal_parts rel_parts rel_clean split join calls
update_symlink-calls_example =
    update_symlink-calls healthy flags flags.root flags.dest remote_hash (codes "/git/1f") start
      replaced refl remote_hash-IsName refl
