-- ===== src/Tests/Ends.antt =====
-- The end of a check-out, with a hook.
use git_sync.Common.{
  ◌≡◌, refl, true, none, if◌then◌else◌, ◌↔◌, Text, codes, equal, split, join, has_prefix,
}
use git_sync.Path.{
  join_path, clean, clean_path, rel, go_up, push_part, render, equal_parts, rel_parts, rel_clean,
}
use git_sync.Flags.{Flags}
use git_sync.Os.{Machine, Result, ok, os, perform, ◌>>=◌, pure, fail, attempt, or_else}
use git_sync.Command.{run_command, run_command_with_stdin, run_result}
use git_sync.Worktree.{
  cleanup_work_tree, set_repo_ready, update_symlink, old_worktree, run_hook, clean_up_old,
  swap_and_clean_up,
}
use git_sync.Sync.Hook.{swap_and_clean_up-ends}
use git_sync.Worktree.Leaves.{swap_and_clean_up-leaves, removes, tree_at}
use git_sync.Tests.World.{flags, remote_hash, healthy, start}

abbrev hooked_flags : Flags
hooked_flags = record flags { sync_hook_command = codes "/hook" }

abbrev succeeds : Result (Unit {0})
succeeds = ok tt

abbrev dir : Text
dir = join_path flags.root remote_hash

abbrev flipped : Machine
flipped = (update_symlink healthy hooked_flags flags.root flags.dest dir start).1

abbrev hooked : Machine
hooked = (run_hook healthy hooked_flags dir (set_repo_ready flipped).1).1

abbrev cleaned : Machine
cleaned = (clean_up_old healthy hooked_flags flags.root (codes "/git/1f") hooked).1

swap_and_clean_up-ends_example :
    let (r, last) = swap_and_clean_up healthy hooked_flags flags.root flags.dest dir start in
    (last ≡ cleaned)
    × (last.repo_ready ≡ true)
    × ((r ≡ ok tt) ↔ ((succeeds ≡ ok tt) × (succeeds ≡ ok tt)))
unfolding equal os perform update_symlink old_worktree run_hook clean_up_old cleanup_work_tree
    attempt or_else run_command run_command_with_stdin run_result pure fail ◌>>=◌ rel join_path
    clean clean_path go_up push_part render equal_parts rel_parts rel_clean split join
swap_and_clean_up-ends_example =
    swap_and_clean_up-ends healthy hooked_flags flags.root flags.dest dir (codes "/git/1f") start
      flipped hooked cleaned succeeds succeeds refl refl refl

-- The symlink points to the worktree that was just built.
swap_and_clean_up-leaves_example :
    tree_at
      (codes "/git/1f")
      (swap_and_clean_up healthy hooked_flags flags.root flags.dest (codes "/git/1f") start).1
    ≡ (if removes
          (update_symlink healthy hooked_flags flags.root flags.dest (codes "/git/1f") start).0
          (codes "/git/1f")
        then none
        else tree_at (codes "/git/1f") start)
swap_and_clean_up-leaves_example =
    swap_and_clean_up-leaves healthy hooked_flags flags.root flags.dest (codes "/git/1f")
      (codes "/git/1f") start

dangles :
    removes
      (update_symlink healthy hooked_flags flags.root flags.dest (codes "/git/1f") start).0
      (codes "/git/1f")
    ≡ true
unfolding removes equal has_prefix os perform update_symlink old_worktree run_command
    run_command_with_stdin run_result attempt or_else pure fail ◌>>=◌ rel join_path clean clean_path
    go_up push_part render equal_parts rel_parts rel_clean split join
dangles = refl
