-- ===== src/Worktree/Safe.antt =====
-- The functions of Worktree, and those of the credentials, against the view of the disk.
use git_sync.Common.{◌≡◌, refl, List, [], ◌∷◌, ℤ, pos, eq_ℤ, octal, Text, codes, equal, is_empty}
use git_sync.Flags.{Flags, submodules_off}
use git_sync.Os.{
  run, remove_all, open_file, create_file, copy_file, close_file, Env, Machine, Result, ok, err, Io,
}
use git_sync.Os.Frame.{
  Keeps, Keeps-pure, Keeps-fail, Keeps-bind, Keeps-or_else, Keeps-defer, Keeps-if,
}
use git_sync.Worktree.{
  note, git, cleanup_work_tree, old_worktree, sparse_checkout_then, maybe_sparse, run_hook,
  clean_up_old, submodule_args, update_submodules, change_permissions,
}
use git_sync.Disk.{other, action}
use git_sync.Disk.Quiet.{IsQuietFrame, Keeps-os, Keeps-run_command, Keeps-mkdir_if_absent}
use git_sync.Disk.Steps.{StaysSafe, StaysSafe-IsFrame, StaysSafe-IsQuietFrame, os-StaysSafe}

module _ {env : Env} {R : Machine → Machine → Type 0} (q : IsQuietFrame env R) (fl : Flags) where
  pub Keeps-note {ℓ} : {A : Type ℓ} (msg : Text) {x : Io A} → Keeps R x → Keeps R (note msg x)
  Keeps-note msg h = Keeps-or_else q.frame h λ e. Keeps-fail q.frame _

  pub Keeps-old_worktree : (r : Result Text) → Keeps R (old_worktree env fl r)
  unfolding old_worktree
  Keeps-old_worktree (ok path) = Keeps-pure q.frame path
  Keeps-old_worktree (err e) =
      Keeps-if q.frame e.not_exist (Keeps-pure q.frame []) (Keeps-fail q.frame _)

  -- A git command with an option that names none of the calls in the view.
  pub Keeps-git :
      (cwd : Text) (args : List Text)
      → action (run cwd [] fl.git_cmd args) ≡ other
      → Keeps R (git env fl cwd args)
  Keeps-git cwd args h = Keeps-run_command q cwd fl.git_cmd args h

  pub Keeps-run_hook : (worktree_path : Text) → Keeps R (run_hook env fl worktree_path)
  unfolding run_hook action
  Keeps-run_hook worktree_path =
      Keeps-if q.frame (is_empty fl.sync_hook_command) (Keeps-pure q.frame tt) (
        Keeps-bind q.frame (Keeps-run_command q worktree_path fl.sync_hook_command [] refl)
          λ _. Keeps-pure q.frame tt)

  pub Keeps-update_submodules :
      (worktree_path : Text) (depth : ℤ) (submodule_mode : Text)
      → Keeps R (update_submodules env fl worktree_path depth submodule_mode)
  unfolding update_submodules action
  Keeps-update_submodules worktree_path depth submodule_mode =
      Keeps-if q.frame (equal submodule_mode submodules_off) (Keeps-pure q.frame tt) (
        Keeps-bind q.frame
          (Keeps-git worktree_path (submodule_args env fl depth submodule_mode) refl)
          λ _. Keeps-pure q.frame tt)

  pub Keeps-change_permissions :
      (worktree_path : Text) → Keeps R (change_permissions env fl worktree_path)
  unfolding change_permissions action
  Keeps-change_permissions worktree_path =
      Keeps-if q.frame (eq_ℤ fl.chmod (pos 0)) (Keeps-pure q.frame tt) (
        Keeps-bind q.frame
          (Keeps-run_command q [] (codes "chmod") (codes "-R" ∷ octal fl.chmod ∷ worktree_path ∷ [])
            refl)
          λ _. Keeps-pure q.frame tt)

  pub Keeps-maybe_sparse {ℓ} :
      {A : Type ℓ} (info_path work_dir : Text) {rest : Io A}
      → Keeps R rest
      → Keeps R (maybe_sparse env fl info_path work_dir rest)
  unfolding maybe_sparse sparse_checkout_then action
  Keeps-maybe_sparse info_path work_dir h = Keeps-if q.frame (is_empty fl.sparse_checkout_file) h (
      Keeps-bind q.frame (Keeps-os q (open_file fl.sparse_checkout_file) refl) λ _.
        Keeps-defer q.frame (Keeps-os q (close_file fl.sparse_checkout_file) refl) (
          Keeps-bind q.frame (Keeps-mkdir_if_absent q fl info_path) λ _.
            Keeps-bind q.frame (Keeps-os q (create_file _) refl) λ _.
              Keeps-defer q.frame (Keeps-os q (close_file _) refl) (
                Keeps-bind q.frame (Keeps-os q (copy_file _ fl.sparse_checkout_file) refl) λ _.
                  Keeps-bind q.frame
                    (Keeps-git work_dir (codes "sparse-checkout" ∷ codes "init" ∷ []) refl)
                    λ _. h)))

module _ (env : Env) (fl : Flags) where
  pub cleanup_work_tree-StaysSafe :
      (git_root worktree : Text) → Keeps StaysSafe (cleanup_work_tree env fl git_root worktree)
  unfolding cleanup_work_tree action
  cleanup_work_tree-StaysSafe git_root worktree =
      Keeps-bind StaysSafe-IsFrame
        (Keeps-note (StaysSafe-IsQuietFrame env) fl (codes "error removing directory")
          (os-StaysSafe env (remove_all worktree) (λ _. tt)))
        λ _.
          Keeps-bind StaysSafe-IsFrame
            (Keeps-git (StaysSafe-IsQuietFrame env) fl git_root
              (codes "worktree" ∷ codes "prune" ∷ []) refl)
            λ _. Keeps-pure StaysSafe-IsFrame tt

  pub clean_up_old-StaysSafe :
      (git_root old : Text) → Keeps StaysSafe (clean_up_old env fl git_root old)
  unfolding clean_up_old
  clean_up_old-StaysSafe git_root old =
      Keeps-if StaysSafe-IsFrame (is_empty old) (Keeps-pure StaysSafe-IsFrame tt)
        (cleanup_work_tree-StaysSafe git_root old)
