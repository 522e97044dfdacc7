-- ===== src/Sync/Every.antt =====
-- Relations that a whole sync keeps because each of its calls does.
use git_sync.Common.{
  ℕ, ◌≡◌, refl, arith, ◌∷◌, Bool, true, false, Option, none, some, List, [], ℤ, Text, codes,
  is_empty,
}
use git_sync.Path.{join_path, rel}
use git_sync.Flags.{Flags}
use git_sync.Os.{
  Call, run, temp_file, write_temp, rename, remove_all, eval_symlinks, write_file, stat, Env,
  Machine, Failure, Result, ok, err, Io, ◌>>=◌, perform, os, os-machine,
}
use git_sync.Os.Frame.{
  IsFrame, Keeps, Keeps-pure, Keeps-fail, Keeps-bind, Keeps-attempt, Keeps-or_else, Keeps-if,
}
use git_sync.Command.{run_command, run_command_with_stdin}
use git_sync.Worktree.{
  or_fail, set_repo_ready, cleanup_work_tree, update_symlink, saved_errors, clean_up_old,
  swap_and_clean_up,
}
use git_sync.Sync.{
  count_askpass, check_out_and_swap, build_worktree, if_resolved, add_worktree_and_swap, clone,
  clone_repo, refresh_credentials, needed_hash, sync_to, sync_repo,
}
use git_sync.Auth.Quiet.{Keeps-call_git_askpass_url}
use git_sync.Disk.{Action, fill, put, other, action}
use git_sync.Logger.{fill_and_rename}
use git_sync.Disk.Quiet.{
  IsQuietFrame, quiet_frame, Keeps-rev_is_hash, Keeps-log_error, Keeps-local_hash_for_rev,
  Keeps-get_revs,
}
use git_sync.Worktree.Safe.{
  Keeps-note, Keeps-old_worktree, Keeps-run_hook, Keeps-update_submodules, Keeps-change_permissions,
  Keeps-maybe_sparse,
}

-- A call with which the error file is made.
abbrev pub is_put : Action → Bool
is_put (fill file content) = true
is_put (put file path) = true
is_put _ = false

not_put : {a : Action} → a ≡ other → is_put a ≡ false
not_put h = rw h refl

-- No command is one.
no_put : (cwd command : Text) (args : List Text) → is_put (action (run cwd [] command args)) ≡ false
unfolding action
no_put cwd command [] = refl
no_put cwd command (a ∷ []) = refl
no_put cwd command (a ∷ b ∷ []) = refl
no_put cwd command (a ∷ b ∷ c ∷ args) = ground arith

-- A relation that holds across every call but those that write the error file and put it in place, across what is
-- done with that file, and across the two counters of GIT_ASKPASS_URL.
pub record IsEveryFrame (env : Env) (R : Machine → Machine → Type 0) : Type 0 where
  pub frame : IsFrame R
  pub call : (c : Call) (m : Machine) → is_put (action c) ≡ false → R m (perform env c m).1
  pub file :
      (fl : Flags) (content : Text)
      → Keeps R (
          os env (temp_file fl.root (codes "tmp-err-")) >>= λ tmp.
          fill_and_rename env fl content tmp)
  pub count : (b : Bool) (m : Machine) → R m (count_askpass b m).1

-- Where every call keeps the relation.
pub every_frame :
    (env : Env) {R : Machine → Machine → Type 0}
    → IsFrame R
    → ((c : Call) (m : Machine) → R m (perform env c m).1)
    → ((b : Bool) (m : Machine) → R m (count_askpass b m).1)
    → IsEveryFrame env R
every_frame env frame call count = record {
  frame = frame;
  call = λ c m _. call c m;
  file =
      (quiet_frame env frame (λ c m _. call c m)
        (λ file content m. call (write_temp file content) m)
        λ file path m. call (rename file path) m).file;
  count = count;
}

module _ {env : Env} {R : Machine → Machine → Type 0} (v : IsEveryFrame env R) (fl : Flags) where
  pub quiet : IsQuietFrame env R
  quiet = record { frame = v.frame; call = λ c m h. v.call c m (not_put h); file = v.file }

  any_call : (c : Call) → is_put (action c) ≡ false → Keeps R (os env c)
  any_call c h = record { keeps = λ m. rw os-machine (v.call c m h) }

  any_stat : (path : Text) → Keeps R (os env (stat path))
  unfolding action
  any_stat path = any_call (stat path) refl

  any_write : (path content : Text) (mode : ℕ) → Keeps R (os env (write_file path content mode))
  unfolding action
  any_write path content mode = any_call (write_file path content mode) refl

  any_look : (path : Text) → Keeps R (os env (eval_symlinks path))
  unfolding action
  any_look path = any_call (eval_symlinks path) refl

  pub any_command :
      (cwd command : Text) (args : List Text) → Keeps R (run_command env cwd command args)
  unfolding run_command run_command_with_stdin
  any_command cwd command args = record { keeps = λ m. v.call _ m (no_put _ command args) }

  pub any_or_fail {ℓ} : {A : Type ℓ} (e : Failure) (o : Option A) → Keeps R (or_fail e o)
  any_or_fail e none = Keeps-fail v.frame e
  any_or_fail e (some a) = Keeps-pure v.frame a

  Keeps-cleanup_work_tree :
      (git_root worktree : Text) → Keeps R (cleanup_work_tree env fl git_root worktree)
  unfolding cleanup_work_tree action
  Keeps-cleanup_work_tree git_root worktree =
      Keeps-bind v.frame
        (Keeps-note quiet fl (codes "error removing directory")
          (any_call (remove_all worktree) refl))
        λ _. Keeps-bind v.frame (any_command git_root fl.git_cmd _) λ _. Keeps-pure v.frame tt

  pub Keeps-clean_up_old : (git_root old : Text) → Keeps R (clean_up_old env fl git_root old)
  unfolding clean_up_old
  Keeps-clean_up_old git_root old =
      Keeps-if v.frame (is_empty old) (Keeps-pure v.frame tt) (Keeps-cleanup_work_tree git_root old)

  pub Keeps-update_symlink :
      (git_root link new_dir : Text) → Keeps R (update_symlink env fl git_root link new_dir)
  unfolding update_symlink
  Keeps-update_symlink git_root link new_dir =
      Keeps-bind v.frame
        (Keeps-bind v.frame (Keeps-attempt v.frame (any_look _)) (Keeps-old_worktree quiet fl))
        λ old.
          Keeps-bind v.frame
            (Keeps-note quiet fl (codes "error converting to relative path")
              (any_or_fail _ (rel git_root new_dir)))
            λ _.
              Keeps-bind v.frame
                (Keeps-note quiet fl (codes "error creating symlink") (any_command git_root _ _))
                λ _.
                  Keeps-bind v.frame
                    (Keeps-note quiet fl (codes "error replacing symlink")
                      (any_command git_root _ _))
                    λ _. Keeps-pure v.frame old

  pub Keeps-saved_errors : (a b : Result (Unit {0})) → Keeps R (saved_errors env fl a b)
  unfolding saved_errors
  Keeps-saved_errors a (err e) = Keeps-fail v.frame e
  Keeps-saved_errors (err e) (ok _) = Keeps-fail v.frame e
  Keeps-saved_errors (ok _) (ok _) = Keeps-pure v.frame tt

  pub Keeps-swap_and_clean_up :
      (git_root dest worktree_path : Text)
      → ((m : Machine) → R m (set_repo_ready m).1)
      → Keeps R (swap_and_clean_up env fl git_root dest worktree_path)
  unfolding swap_and_clean_up
  Keeps-swap_and_clean_up git_root dest worktree_path set =
      Keeps-bind v.frame (Keeps-update_symlink git_root dest worktree_path) λ old.
        Keeps-bind v.frame (record { keeps = set })
          λ _.
            Keeps-bind v.frame (Keeps-attempt v.frame (Keeps-run_hook quiet fl worktree_path)) λ a.
              Keeps-bind v.frame (Keeps-attempt v.frame (Keeps-clean_up_old git_root old))
                λ b. Keeps-saved_errors a b

  -- The whole sync, given its one step that changes the memory of the program.
  module _
      (swap : (git_root dest worktree_path : Text)
        → Keeps R (swap_and_clean_up env fl git_root dest worktree_path)) where
    Keeps-check_out_and_swap :
        (git_root dest : Text) (depth : ℤ) (hash submodule_mode worktree_path : Text)
        → Keeps R (check_out_and_swap env fl git_root dest depth hash submodule_mode worktree_path)
    unfolding check_out_and_swap
    Keeps-check_out_and_swap git_root dest depth hash submodule_mode worktree_path =
        Keeps-bind v.frame (any_command worktree_path fl.git_cmd _) λ _.
          Keeps-bind v.frame (Keeps-update_submodules quiet fl worktree_path depth submodule_mode)
            λ _.
              Keeps-bind v.frame (Keeps-change_permissions quiet fl worktree_path)
                λ _. swap git_root dest worktree_path

    Keeps-build_worktree :
        (git_root dest branch : Text) (depth : ℤ) (hash submodule_mode : Text)
        → Keeps R (build_worktree env fl git_root dest branch depth hash submodule_mode)
    unfolding build_worktree
    Keeps-build_worktree git_root dest branch depth hash submodule_mode =
        Keeps-bind v.frame (any_command git_root fl.git_cmd _) λ _.
          Keeps-bind v.frame (Keeps-cleanup_work_tree git_root _) λ _.
            Keeps-bind v.frame (any_command git_root fl.git_cmd _) λ _.
              Keeps-bind v.frame (any_or_fail _ (rel git_root (join_path git_root hash))) λ _.
                Keeps-bind v.frame (any_write _ _ 0o644) λ _.
                  Keeps-maybe_sparse quiet fl _ _
                    (Keeps-check_out_and_swap git_root dest depth hash submodule_mode _)

    Keeps-if_resolved :
        (rev hash : Text) {build : Io (Unit {0})} (r : Result Bool)
        → Keeps R build
        → Keeps R (if_resolved env fl rev hash build r)
    unfolding if_resolved
    Keeps-if_resolved rev hash (ok _) h = h
    Keeps-if_resolved rev hash (err e) h = Keeps-log_error quiet fl e _ _

    pub Keeps-add_worktree_and_swap :
        (git_root dest branch rev : Text) (depth : ℤ) (hash submodule_mode : Text)
        → Keeps R (add_worktree_and_swap env fl git_root dest branch rev depth hash submodule_mode)
    unfolding add_worktree_and_swap
    Keeps-add_worktree_and_swap git_root dest branch rev depth hash submodule_mode =
        Keeps-bind v.frame (any_command git_root fl.git_cmd _) λ _.
          Keeps-bind v.frame (Keeps-attempt v.frame (Keeps-rev_is_hash quiet fl hash git_root)) λ r.
            Keeps-if_resolved rev hash r
              (Keeps-build_worktree git_root dest branch depth hash submodule_mode)

    Keeps-clone_repo :
        (repo branch : Text) (depth : ℤ) (git_root : Text)
        → Keeps R (clone_repo env fl repo branch depth git_root)
    unfolding clone_repo clone action
    Keeps-clone_repo repo branch depth git_root =
        Keeps-bind v.frame
          (Keeps-bind v.frame
            (Keeps-or_else v.frame (any_command [] fl.git_cmd _) λ e.
              Keeps-if v.frame _
                (Keeps-bind v.frame (any_call (remove_all git_root) refl)
                  λ _. any_command [] fl.git_cmd _)
                (Keeps-fail v.frame e))
            λ _. Keeps-pure v.frame tt)
          λ _. Keeps-maybe_sparse quiet fl _ git_root (Keeps-pure v.frame tt)

    Keeps-refresh_credentials : (auth_url : Text) → Keeps R (refresh_credentials env fl auth_url)
    unfolding refresh_credentials
    Keeps-refresh_credentials auth_url =
        Keeps-if v.frame (is_empty auth_url) (Keeps-pure v.frame tt) (
          Keeps-bind v.frame
            (Keeps-or_else v.frame (Keeps-call_git_askpass_url quiet fl auth_url)
              λ e. Keeps-bind v.frame (record { keeps = v.count false }) λ _. Keeps-fail v.frame _)
            λ _. record { keeps = v.count true })

    Keeps-needed_hash :
        (repo branch rev : Text) (depth : ℤ) (git_root target : Text) (r : Result Text)
        → Keeps R (needed_hash env fl repo branch rev depth git_root target r)
    unfolding needed_hash
    Keeps-needed_hash repo branch rev depth git_root target (err e) =
        Keeps-if v.frame e.not_exist
          (Keeps-bind v.frame (Keeps-clone_repo repo branch depth git_root) λ _.
            Keeps-bind v.frame (Keeps-local_hash_for_rev quiet fl rev git_root)
              λ _. Keeps-pure v.frame _)
          (Keeps-fail v.frame _)
    Keeps-needed_hash repo branch rev depth git_root target (ok _) =
        Keeps-bind v.frame (Keeps-get_revs quiet fl target branch rev) λ revs. Keeps-pure v.frame _

    Keeps-sync_to :
        (git_root dest branch rev : Text) (depth : ℤ) (submodule_mode : Text) (o : Option Text)
        → Keeps R (sync_to env fl git_root dest branch rev depth submodule_mode o)
    unfolding sync_to
    Keeps-sync_to git_root dest branch rev depth submodule_mode none = Keeps-pure v.frame _
    Keeps-sync_to git_root dest branch rev depth submodule_mode (some hash) =
        Keeps-bind v.frame
          (Keeps-add_worktree_and_swap git_root dest branch rev depth hash submodule_mode)
          λ _. Keeps-pure v.frame _

    pub Keeps-sync_repo :
        (repo branch rev : Text) (depth : ℤ) (git_root dest auth_url submodule_mode : Text)
        → Keeps R (sync_repo env fl repo branch rev depth git_root dest auth_url submodule_mode)
    unfolding sync_repo
    Keeps-sync_repo repo branch rev depth git_root dest auth_url submodule_mode =
        Keeps-bind v.frame (Keeps-refresh_credentials auth_url) λ _.
          Keeps-bind v.frame (Keeps-attempt v.frame (any_stat _)) λ present.
            Keeps-bind v.frame (Keeps-needed_hash repo branch rev depth git_root _ present)
              λ hash. Keeps-sync_to git_root dest branch rev depth submodule_mode hash
