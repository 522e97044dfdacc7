-- ===== src/Tests/Publish.antt =====
-- A sync that ends with the symlink at the new hash.
use git_sync.Common.{
  ◌≡◌, refl, ◌∙◌, ap, sym, subst, arith, inr, Bool, false, none, some, [], Text, codes, equal,
  has_prefix, trim_left, trim, split, contains, join,
}
use git_sync.Os.{
  eval_symlinks, Env, History, Machine, os, perform, pure, fail, attempt, or_else, ◌>>=◌,
}
use git_sync.Command.{run_command, run_command_with_stdin, run_result}
use git_sync.Git.{local_hash_for_rev, rev_is_hash, is_hash_of_kind}
use git_sync.Path.{
  join_path, clean, clean_path, rel, go_up, push_part, render, equal_parts, rel_parts, rel_clean,
}
use git_sync.Worktree.{
  cleanup_work_tree, update_symlink, old_worktree, set_repo_ready, run_hook, clean_up_old,
  saved_errors, swap_and_clean_up, update_submodules, change_permissions, maybe_sparse,
}
use git_sync.Worktree.Publish.{Published, IsApart, PointsElsewhere}
use git_sync.Disk.{
  Action, link_to, flip, check_out, remove, fill, put, other, action, Disk, succeeded, view,
}
use git_sync.Disk.Link.{shown, published, is_flip, IsUnflipped, same, later}
use git_sync.Sync.{sync_to, add_worktree_and_swap, if_resolved, build_worktree, check_out_and_swap}
use git_sync.Sync.Outcome.{fetch}
use git_sync.Sync.Publish.{sync_to-publishes}
use git_sync.Tests.World.{done, flags, remote_hash, remote_hash-IsName, healthy, start}

-- The symlink leads to the old worktree until it is replaced, and then to where it was put.
abbrev moving : Env
moving h (eval_symlinks path) =
    done (elim (published path h) [ none ↦ codes "/git/1f" | some d ↦ d ])
moving h c = healthy h c

abbrev fetched : Machine
fetched = (fetch moving flags flags.root flags.branch flags.depth start).1

abbrev resolved : Machine
resolved = (rev_is_hash moving flags remote_hash flags.root fetched).1

abbrev last : Machine
last =
    (sync_to moving flags flags.root flags.dest flags.branch flags.rev flags.depth flags.submodules
      (some remote_hash) start).1

shown-none :
    (link : Text) (a : Action) (done : Bool) (d : Disk)
    → is_flip a ≡ false
    → shown link a done d none ≡ none
shown-none link (link_to cwd dst) done d h = ground arith
shown-none link (flip cwd name) done d h = ground arith
shown-none link (check_out cwd hash) done d h = refl
shown-none link (remove path) done d h = ground arith
shown-none link (fill file content) done d h = refl
shown-none link (put file path) done d h = ground arith
shown-none link other done d h = refl

unflipped-published : (link : Text) {h : History} → IsUnflipped [] h → published link h ≡ none
unfolding published
unflipped-published link same = refl
unflipped-published link (later e {h} q u) =
    ap (shown link (action e.call) (succeeded e.reply) (view h)) (unflipped-published link u)
    ∙ shown-none link (action e.call) (succeeded e.reply) (view h) q

points_elsewhere :
    PointsElsewhere moving start.history
      (join_path flags.root flags.dest)
      (join_path flags.root remote_hash)
unfolding equal has_prefix join_path clean clean_path go_up push_part render split join
points_elsewhere h u ok_ =
    subst
      (λ o.
        IsApart (join_path flags.root flags.dest) (join_path flags.root remote_hash)
          (elim o [ none ↦ codes "/git/1f" | some d ↦ d ]))
      (sym (unflipped-published (join_path flags.root flags.dest) u)) (inr (refl, refl))

sync_to-publishes_example :
    Published (join_path flags.root flags.dest) (join_path flags.root remote_hash) remote_hash last
unfolding equal os perform run_command run_command_with_stdin run_result pure fail attempt or_else
    ◌>>=◌ go_up push_part render equal_parts rel_parts rel_clean has_prefix trim_left trim split
    contains join rel clean join_path clean_path rev_is_hash is_hash_of_kind cleanup_work_tree
    update_symlink old_worktree set_repo_ready run_hook clean_up_old saved_errors swap_and_clean_up
    update_submodules change_permissions maybe_sparse sync_to add_worktree_and_swap if_resolved
    build_worktree check_out_and_swap local_hash_for_rev published
sync_to-publishes_example =
    sync_to-publishes moving flags flags.root flags.dest remote_hash flags.branch flags.rev
      flags.depth flags.submodules start fetched resolved last [] false refl remote_hash-IsName
      points_elsewhere refl refl refl
