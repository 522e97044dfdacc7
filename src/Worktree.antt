-- ===== src/Worktree.antt =====
-- The pieces that `addWorktreeAndSwap` and `cloneRepo` of cmd/git-sync/main.go are made of:
-- `cleanupWorkTree`, `updateSymlink`, the sparse-checkout file, submodules, permissions, and the
-- steps from the flip of the symlink on. A context is not passed on: whether its deadline has
-- passed is part of a command's reply.
pub mod Safe
pub mod Swap
pub mod Calls
pub mod Leaves
pub mod Publish
use git_sync.Common.{
  Bool, true, false, not, Option, none, some, List, [], ◌∷◌, ◌++◌, ◌+◌, if◌then◌else◌, ℤ, pos, eq_ℤ,
  itoa, octal, Text, codes, quote, equal, is_empty, contains,
}
use git_sync.Path.{join_path, rel}
use git_sync.Flags.{Flags, submodules_recursive, submodules_off}
use git_sync.Os.{
  Env, Machine, Failure, Result, ok, err, Io, ◌>>=◌, ◌>>◌, pure, fail, attempt, or_else, defer, os,
  stat, remove_all, eval_symlinks, open_file, create_file, copy_file, close_file, write_file,
}
use git_sync.Command.{run_command}
use git_sync.Logger.{text, mkdir_if_absent, log_error}
use git_sync.Git.{local_hash_for_rev, rev_is_hash, get_revs}
use git_sync.Auth.{call_git_askpass_url}

-- `fmt.Errorf("…: %v", err)`
abbrev pub note {ℓ} : {A : Type ℓ} → Text → Io A → Io A
note msg x =
    or_else x λ e. fail (record { message = msg ++ (codes ": " ++ e.message); not_exist = false })

abbrev pub depth_args : ℤ → List Text
depth_args depth = if eq_ℤ depth (pos 0) then [] else codes "--depth" ∷ itoa depth ∷ []

-- The error of `filepath.Rel`.
abbrev pub rel_failure : Text → Text → Failure
rel_failure base targ = record {
  message = codes "Rel: can't make " ++ (targ ++ (codes " relative to " ++ base));
  not_exist = false;
}

abbrev pub or_fail {ℓ} : {A : Type ℓ} → Failure → Option A → Io A
or_fail e none = fail e
or_fail e (some a) = pure a

-- `setRepoReady`
unfoldable pub set_repo_ready : Io (Unit {0})
set_repo_ready m = (ok tt, record m { repo_ready = true })

-- `getRepoReady`
unfoldable pub get_repo_ready : Io Bool
get_repo_ready m = (ok m.repo_ready, m)

abbrev pub tmplink : Text
tmplink = codes "tmp-link"

module _ (env : Env) (fl : Flags) where
  abbrev pub git : Text → List Text → Io Text
  git cwd args = run_command env cwd fl.git_cmd args

  unfoldable pub cleanup_work_tree : Text → Text → Io (Unit {0})
  cleanup_work_tree git_root worktree = do
    note (codes "error removing directory") (os env (remove_all worktree))
    git git_root (codes "worktree" ∷ codes "prune" ∷ [])
    pure tt

  -- The link's present target, or nothing if there is no link.
  unfoldable pub old_worktree : Result Text → Io Text
  old_worktree (ok path) = pure path
  old_worktree (err e) =
      if e.not_exist
      then pure []
      else fail (record {
        message = codes "error accessing current worktree: " ++ e.message;
        not_exist = false;
      })

  unfoldable pub update_symlink : Text → Text → Text → Io Text
  update_symlink git_root link new_dir = do
    old ← attempt (os env (eval_symlinks (join_path git_root link))) >>= old_worktree
    new_dir_relative ←
        note (codes "error converting to relative path")
          (or_fail (rel_failure git_root new_dir) (rel git_root new_dir))
    note (codes "error creating symlink")
        (run_command env git_root (codes "ln") (codes "-snf" ∷ new_dir_relative ∷ tmplink ∷ []))
    note (codes "error replacing symlink")
        (run_command env git_root (codes "mv") (codes "-T" ∷ tmplink ∷ link ∷ []))
    pure old

  -- The sparse-checkout file is copied into place before `rest`. The two files are closed when the
  -- function returns, so behind `rest`.
  unfoldable pub sparse_checkout_then {ℓ} : {A : Type ℓ} → Text → Text → Io A → Io A
  sparse_checkout_then info_path work_dir rest = do
    os env (open_file fl.sparse_checkout_file)
    defer (os env (close_file fl.sparse_checkout_file)) do
      mkdir_if_absent env fl info_path
      let config_path = join_path info_path (codes "sparse-checkout")
      os env (create_file config_path)
      defer (os env (close_file config_path)) do
        os env (copy_file config_path fl.sparse_checkout_file)
        git work_dir (codes "sparse-checkout" ∷ codes "init" ∷ [])
        rest

  -- Only where a sparse-checkout file is configured.
  unfoldable pub maybe_sparse {ℓ} : {A : Type ℓ} → Text → Text → Io A → Io A
  maybe_sparse info_path work_dir rest =
      if is_empty fl.sparse_checkout_file
      then rest
      else sparse_checkout_then info_path work_dir rest

  -- The hook's error is kept until the old worktree is cleaned up, whose error comes first.
  unfoldable pub saved_errors : Result (Unit {0}) → Result (Unit {0}) → Io (Unit {0})
  saved_errors exec (err e) = fail e
  saved_errors (err e) (ok _) = fail e
  saved_errors (ok _) (ok _) = pure tt

  unfoldable pub run_hook : Text → Io (Unit {0})
  run_hook worktree_path =
      if is_empty fl.sync_hook_command
      then pure tt
      else run_command env worktree_path fl.sync_hook_command [] >> pure tt

  unfoldable pub clean_up_old : Text → Text → Io (Unit {0})
  clean_up_old git_root old = if is_empty old then pure tt else cleanup_work_tree git_root old

  -- From the flip of the symlink to the end of `addWorktreeAndSwap`.
  unfoldable pub swap_and_clean_up : Text → Text → Text → Io (Unit {0})
  swap_and_clean_up git_root dest worktree_path = do
    old ← update_symlink git_root dest worktree_path
    set_repo_ready
    exec_err ← attempt (run_hook worktree_path)
    cleanup_err ← attempt (clean_up_old git_root old)
    saved_errors exec_err cleanup_err

  abbrev pub submodule_args : ℤ → Text → List Text
  submodule_args depth submodule_mode =
      codes "submodule"
      ∷ codes "update"
      ∷ codes "--init"
      ∷ ((if equal submodule_mode submodules_recursive then codes "--recursive" ∷ [] else [])
          ++ depth_args depth)

  unfoldable pub update_submodules : Text → ℤ → Text → Io (Unit {0})
  update_submodules worktree_path depth submodule_mode =
      if equal submodule_mode submodules_off
      then pure tt
      else git worktree_path (submodule_args depth submodule_mode) >> pure tt

  unfoldable pub change_permissions : Text → Io (Unit {0})
  change_permissions worktree_path =
      if eq_ℤ fl.chmod (pos 0)
      then pure tt
      else run_command env [] (codes "chmod") (codes "-R" ∷ octal fl.chmod ∷ worktree_path ∷ [])
        >> pure tt
