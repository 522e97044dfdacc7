-- ===== src/Tests/Notify.antt =====
-- The loop and the sender of the webhook together, with `--one-time`.
use git_sync.Common.{
  ◌≡◌, refl, inl, true, false, [], ◌∷◌, codes, equal, has_prefix, trim_left, trim, split, contains,
  join, length,
}
use git_sync.Flags.{Flags}
use git_sync.Os.{os, perform, pure, fail, attempt, or_else, ◌>>=◌}
use git_sync.Command.{run_command, run_command_with_stdin, run_result}
use git_sync.Git.{get_revs, local_hash_for_rev, remote_hash_for_ref, rev_is_hash, is_hash_of_kind}
use git_sync.Path.{
  join_path, clean, clean_path, rel, go_up, push_part, render, equal_parts, rel_parts, rel_clean,
}
use git_sync.Worktree.{
  cleanup_work_tree, update_symlink, old_worktree, set_repo_ready, run_hook, clean_up_old,
  saved_errors, swap_and_clean_up, update_submodules, change_permissions, maybe_sparse,
}
use git_sync.Sync.{
  sync_repo, sync_to, add_worktree_and_swap, refresh_credentials, needed_hash, if_resolved,
  build_worktree, check_out_and_swap,
}
use git_sync.Os.Runs.{in_full}
use git_sync.Main.{begin, exit, sync, loop_step}
use git_sync.Main.Failures.{next_of, loop_step-next}
use git_sync.Webhook
use git_sync.Webhook.Mailbox.{run_for}
use git_sync.Webhook.Order.{newest, IsWithin}
use git_sync.Program.Notify.{
  webhook_of, make_webhook, System, go_on, hand_over, Runs, launches, turns, iterates, Turn,
}
use git_sync.Program.Notify.Delivery.{Runs-delivers}
use git_sync.Program.Notify.Lost.{untaken, one_time-loses}
use git_sync.Tests.World.{flags, remote_hash, healthy, start}

abbrev once : Flags
once = record flags { one_time = true; webhook_url = codes "http://h" }

one_time-loses_example :
    (s : System) × Runs healthy once start s
    × (s.next ≡ exit 0)
    × (s.sender ≡ untaken remote_hash)
    × ((s' : System) → ¬ Turn healthy once s s')
unfolding equal os perform get_revs local_hash_for_rev remote_hash_for_ref run_command
    run_command_with_stdin run_result pure fail attempt or_else ◌>>=◌ go_up push_part render
    equal_parts rel_parts rel_clean has_prefix trim_left trim split contains join rel clean
    join_path clean_path rev_is_hash is_hash_of_kind cleanup_work_tree update_symlink old_worktree
    set_repo_ready run_hook clean_up_old saved_errors swap_and_clean_up update_submodules
    change_permissions maybe_sparse sync_repo sync_to add_worktree_and_swap refresh_credentials
    needed_hash if_resolved build_worktree check_out_and_swap
one_time-loses_example = one_time-loses healthy once start remote_hash refl refl refl refl

-- A sync, in whose iteration the sender looks for an event before there is one, and then takes it, looks
-- at the hash, and sends it in vain.
abbrev last : System
last = record {
  machine = (loop_step healthy once begin start).1;
  next = next_of healthy once begin (sync healthy once start).0;
  sender = go_on (false ∷ false ∷ true ∷ []) (
      hand_over start.sent (loop_step healthy once begin start).1.sent
        ((true ∷ []) ∷ (true ∷ []) ∷ []) Webhook.start);
}

last-Runs : Runs healthy once start last
unfolding go_on make_webhook
last-Runs = turns (launches (webhook_of once) refl) (
    iterates begin _ _ [] ((true ∷ []) ∷ (true ∷ []) ∷ []) (false ∷ false ∷ true ∷ []) refl
      (in_full (loop_step-next healthy once begin start (inl refl))))

Runs-delivers_example :
    (length last.machine.sent ≡ last.machine.sync_success)
    × IsWithin last.sender.delivered last.machine.sent
    × (newest (run_for 6 last.sender).delivered ≡ newest last.machine.sent)
Runs-delivers_example = Runs-delivers healthy once start last refl refl last-Runs
