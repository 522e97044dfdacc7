-- ===== src/Sync.antt =====
-- One sync of cmd/git-sync/main.go: `addWorktreeAndSwap`, `cloneRepo` and `syncRepo`.
pub mod Publish
pub mod Safe
pub mod Whole
pub mod Every
pub mod Ready
pub mod Outcome
pub mod Hook
use git_sync.Common.{
  Bool, true, false, Option, none, some, [], ◌∷◌, ◌++◌, ◌+◌, if◌then◌else◌, ℤ, Text, codes, quote,
  equal, is_empty, contains,
}
use git_sync.Path.{join_path, rel}
use git_sync.Flags.{Flags}
use git_sync.Os.{
  Env, Failure, Result, ok, err, Io, ◌>>=◌, ◌>>◌, pure, fail, attempt, or_else, os, stat,
  remove_all, write_file,
}
use git_sync.Logger.{text, log_error}
use git_sync.Git.{local_hash_for_rev, rev_is_hash, get_revs}
use git_sync.Auth.{call_git_askpass_url}
use git_sync.Worktree.{
  note, depth_args, rel_failure, or_fail, git, cleanup_work_tree, maybe_sparse, swap_and_clean_up,
  update_submodules, change_permissions,
}

-- `askpassCount.WithLabelValues(…).Inc()`
unfoldable pub count_askpass : Bool → Io (Unit {0})
count_askpass true m = (ok tt, record m { askpass_success = m.askpass_success + 1 })
count_askpass false m = (ok tt, record m { askpass_error = m.askpass_error + 1 })

module _ (env : Env) (fl : Flags) where
  -- From `git reset` on.
  unfoldable pub check_out_and_swap : Text → Text → ℤ → Text → Text → Text → Io (Unit {0})
  check_out_and_swap git_root dest depth hash submodule_mode worktree_path = do
    git env fl worktree_path (codes "reset" ∷ codes "--hard" ∷ hash ∷ [])
    update_submodules env fl worktree_path depth submodule_mode
    change_permissions env fl worktree_path
    swap_and_clean_up env fl git_root dest worktree_path

  abbrev pub worktree_info : Text → Text → Text
  worktree_info git_root hash =
      join_path git_root (codes ".git/worktrees/" ++ (hash ++ codes "/info"))

  -- From `git gc` on.
  unfoldable pub build_worktree : Text → Text → Text → ℤ → Text → Text → Io (Unit {0})
  build_worktree git_root dest branch depth hash submodule_mode = do
    git env fl git_root (codes "gc" ∷ codes "--prune=all" ∷ [])
    let worktree_path = join_path git_root hash
    cleanup_work_tree env fl git_root worktree_path
    git env fl git_root (
        codes "worktree"
        ∷ codes "add"
        ∷ worktree_path
        ∷ (codes "origin/" ++ branch)
        ∷ codes "--no-checkout"
        ∷ [])
    relative ← or_fail (rel_failure git_root worktree_path) (rel git_root worktree_path)
    os env (
        write_file (join_path worktree_path (codes ".git"))
          (join_path (codes "gitdir: ../.git/worktrees") relative ++ codes "\n") 0o644)
    maybe_sparse env fl (worktree_info git_root hash) worktree_path
        (check_out_and_swap git_root dest depth hash submodule_mode worktree_path)

  -- A hash that does not resolve to a commit ends the function with no error.
  unfoldable pub if_resolved : Text → Text → Io (Unit {0}) → Result Bool → Io (Unit {0})
  if_resolved rev hash build (ok _) = build
  if_resolved rev hash build (err e) =
      log_error env fl e (codes "can't resolve commit, will retry")
        (text (codes "rev") ∷ text rev ∷ text (codes "hash") ∷ text hash ∷ [])

  unfoldable pub add_worktree_and_swap : Text → Text → Text → Text → ℤ → Text → Text → Io (Unit {0})
  add_worktree_and_swap git_root dest branch rev depth hash submodule_mode = do
    git env fl git_root (
        codes "fetch"
        ∷ codes "-f"
        ∷ codes "--tags"
        ∷ (depth_args depth ++ (codes "origin" ∷ branch ∷ [])))
    resolved ← attempt (rev_is_hash env fl hash git_root)
    if_resolved rev hash (build_worktree git_root dest branch depth hash submodule_mode) resolved

  -- A clone that finds the directory in use is tried again once, on an empty one.
  unfoldable pub clone : Text → Text → ℤ → Text → Io (Unit {0})
  clone repo branch depth git_root = do
    let args =
        codes "clone"
        ∷ codes "--no-checkout"
        ∷ codes "-b"
        ∷ branch
        ∷ (depth_args depth ++ (repo ∷ git_root ∷ []))
    or_else (git env fl [] args) λ e.
        if contains e.message (codes "already exists and is not an empty directory")
        then os env (remove_all git_root) >> git env fl [] args
        else fail e
    pure tt

  unfoldable pub clone_repo : Text → Text → ℤ → Text → Io (Unit {0})
  clone_repo repo branch depth git_root = do
    clone repo branch depth git_root
    maybe_sparse env fl (join_path (join_path git_root (codes ".git")) (codes "info")) git_root
        (pure tt)

  -- The credentials behind the URL are fetched anew for each sync.
  unfoldable pub refresh_credentials : Text → Io (Unit {0})
  refresh_credentials auth_url = if is_empty auth_url then pure tt else do
    or_else (call_git_askpass_url env fl auth_url) λ e.
        count_askpass false
        >> fail (record {
          message = codes "failed to call GIT_ASKPASS_URL: " ++ e.message;
          not_exist = false;
        })
    count_askpass true

  -- The `switch` on the repository's presence: the hash to check out, or none if there is no
  -- change.
  unfoldable pub needed_hash : Text → Text → Text → ℤ → Text → Text → Result Text → Io (Option Text)
  needed_hash repo branch rev depth git_root target (err e) =
      if e.not_exist
      then (do
        clone_repo repo branch depth git_root
        hash ← local_hash_for_rev env fl rev git_root
        pure (some hash))
      else fail (record {
        message =
            codes "error checking if repo exists "
            ++ (quote (join_path target (codes ".git")) ++ (codes ": " ++ e.message));
        not_exist = false;
      })
  needed_hash repo branch rev depth git_root target (ok _) = do
    (local, remote) ← get_revs env fl target branch rev
    pure (if equal local remote then none else some remote)

  unfoldable pub sync_to : Text → Text → Text → Text → ℤ → Text → Option Text → Io (Bool × Text)
  sync_to git_root dest branch rev depth submodule_mode none = pure (false, [])
  sync_to git_root dest branch rev depth submodule_mode (some hash) = do
    add_worktree_and_swap git_root dest branch rev depth hash submodule_mode
    pure (true, hash)

  -- Whether there was a change, and the new hash.
  unfoldable pub sync_repo : Text → Text → Text → ℤ → Text → Text → Text → Text → Io (Bool × Text)
  sync_repo repo branch rev depth git_root dest auth_url submodule_mode = do
    refresh_credentials auth_url
    let target = join_path git_root dest
    present ← attempt (os env (stat (join_path target (codes ".git"))))
    hash ← needed_hash repo branch rev depth git_root target present
    sync_to git_root dest branch rev depth submodule_mode hash
