-- ===== src/Disk/Quiet.antt =====
-- Functions of the program that make no call which the view of the disk shows.
use git_sync.Common.{◌≡◌, refl, false, List, [], ◌∷◌, Text, codes, equal, is_empty, not}
use git_sync.Path.{join_path}
use git_sync.Flags.{Flags}
use git_sync.Os.{
  Call, stat, mkdir, temp_file, write_temp, close_file, rename, chmod_file, run, Env, Machine,
  Failure, Result, ok, err, Io, ◌>>=◌, perform, os, os-machine,
}
use git_sync.Os.Frame.{IsFrame, Keeps, Keeps-pure, Keeps-bind, Keeps-attempt, Keeps-defer, Keeps-if}
use git_sync.Command.{run_command_with_stdin, run_command}
use git_sync.Logger.{
  Value, ignore, absent_then_mkdir, mkdir_if_absent, fill_and_rename, write_content, log_error,
}
use git_sync.Git.{local_hash_for_rev, remote_hash_for_ref, is_hash_of_kind, rev_is_hash, get_revs}
use git_sync.Disk.{other, action}

-- A relation that holds across every call that the view does not show, and across what is done with
-- the error file.
pub record IsQuietFrame (env : Env) (R : Machine → Machine → Type 0) : Type 0 where
  pub frame : IsFrame R
  pub call : (c : Call) (m : Machine) → action c ≡ other → R m (perform env c m).1
  pub file :
      (fl : Flags) (content : Text)
      → Keeps R (
          os env (temp_file fl.root (codes "tmp-err-")) >>= λ tmp.
          fill_and_rename env fl content tmp)

-- Where each call with the error file keeps the relation by itself.
module _ (env : Env) {R : Machine → Machine → Type 0} (frame : IsFrame R)
    (call : (c : Call) (m : Machine) → action c ≡ other → R m (perform env c m).1)
    (fills : (file content : Text) (m : Machine) → R m (perform env (write_temp file content) m).1)
    (puts : (file path : Text) (m : Machine) → R m (perform env (rename file path) m).1) where
  by_call : (c : Call) → action c ≡ other → Keeps R (os env c)
  by_call c h = record { keeps = λ m. rw os-machine (call c m h) }

  by_call_with : (fl : Flags) (content tmp : Text) → Keeps R (fill_and_rename env fl content tmp)
  unfolding fill_and_rename action
  by_call_with fl content tmp = Keeps-defer frame (by_call (close_file tmp) refl) (
      Keeps-bind frame (record { keeps = λ m. rw os-machine (fills tmp content m) })
        λ _.
          Keeps-bind frame (record { keeps = λ m. rw os-machine (puts tmp _ m) })
            λ _. by_call (chmod_file (join_path fl.root fl.error_file) 0o644) refl)

  by_calls :
      (fl : Flags) (content : Text)
      → Keeps R (
          os env (temp_file fl.root (codes "tmp-err-")) >>= λ tmp.
          fill_and_rename env fl content tmp)
  unfolding action
  by_calls fl content =
      Keeps-bind frame (by_call (temp_file fl.root (codes "tmp-err-")) refl)
        λ tmp. by_call_with fl content tmp

  pub quiet_frame : IsQuietFrame env R
  quiet_frame = record { frame = frame; call = call; file = by_calls }

module _ {env : Env} {R : Machine → Machine → Type 0} (q : IsQuietFrame env R) where
  pub Keeps-os : (c : Call) → action c ≡ other → Keeps R (os env c)
  Keeps-os c h = record { keeps = λ m. rw os-machine (q.call c m h) }

  pub Keeps-run :
      (cwd stdin command : Text) (args : List Text)
      → action (run cwd stdin command args) ≡ other
      → Keeps R (run_command_with_stdin env cwd stdin command args)
  unfolding run_command_with_stdin
  Keeps-run cwd stdin command args h = record {
    keeps = λ m. q.call (run cwd stdin command args) m h;
  }

  pub Keeps-run_command :
      (cwd command : Text) (args : List Text)
      → action (run cwd [] command args) ≡ other
      → Keeps R (run_command env cwd command args)
  Keeps-run_command cwd command args h = unfold run_command in Keeps-run cwd [] command args h

  pub Keeps-ignore {ℓ} : {A : Type ℓ} {x : Io A} → Keeps R x → Keeps R (ignore x)
  unfolding ignore
  Keeps-ignore hx = record { keeps = λ m. hx.keeps m }

  module _ (fl : Flags) where
    Keeps-absent_then_mkdir :
        (path : Text) (r : Result Text) → Keeps R (absent_then_mkdir env fl path r)
    unfolding absent_then_mkdir action
    Keeps-absent_then_mkdir path (ok _) = Keeps-pure q.frame tt
    Keeps-absent_then_mkdir path (err e) =
        Keeps-if q.frame e.not_exist
          (Keeps-bind q.frame (Keeps-os (mkdir path 0o755) refl) λ _. Keeps-pure q.frame tt)
          (Keeps-pure q.frame tt)

    pub Keeps-mkdir_if_absent : (path : Text) → Keeps R (mkdir_if_absent env fl path)
    unfolding mkdir_if_absent action
    Keeps-mkdir_if_absent path =
        Keeps-bind q.frame (Keeps-attempt q.frame (Keeps-os (stat path) refl))
          (Keeps-absent_then_mkdir path)

    pub Keeps-write_content : (content : Text) → Keeps R (write_content env fl content)
    unfolding write_content action
    Keeps-write_content content =
        Keeps-ignore (Keeps-bind q.frame (Keeps-mkdir_if_absent fl.root) λ _. q.file fl content)

    pub Keeps-log_error :
        (e : Failure) (msg : Text) (kvs : List Value) → Keeps R (log_error env fl e msg kvs)
    unfolding log_error
    Keeps-log_error e msg kvs =
        Keeps-if q.frame (is_empty fl.error_file) (Keeps-pure q.frame tt) (Keeps-write_content _)

    pub Keeps-local_hash_for_rev :
        (rev git_root : Text) → Keeps R (local_hash_for_rev env fl rev git_root)
    unfolding local_hash_for_rev action
    Keeps-local_hash_for_rev rev git_root =
        Keeps-bind q.frame
          (Keeps-run_command git_root fl.git_cmd (codes "rev-parse" ∷ rev ∷ []) refl)
          λ _. Keeps-pure q.frame _

    Keeps-remote_hash_for_ref :
        (ref git_root : Text) → Keeps R (remote_hash_for_ref env fl ref git_root)
    unfolding remote_hash_for_ref action
    Keeps-remote_hash_for_ref ref git_root =
        Keeps-bind q.frame
          (Keeps-run_command git_root fl.git_cmd
            (codes "ls-remote" ∷ codes "-q" ∷ codes "origin" ∷ ref ∷ []) refl)
          λ _. Keeps-pure q.frame _

    Keeps-is_hash_of_kind :
        (rev git_root o : Text) → Keeps R (is_hash_of_kind env fl rev git_root o)
    unfolding is_hash_of_kind
    Keeps-is_hash_of_kind rev git_root o =
        Keeps-if q.frame (not (equal o (codes "commit"))) (Keeps-pure q.frame false)
          (Keeps-bind q.frame (Keeps-local_hash_for_rev rev git_root) λ _. Keeps-pure q.frame _)

    pub Keeps-rev_is_hash : (rev git_root : Text) → Keeps R (rev_is_hash env fl rev git_root)
    unfolding rev_is_hash action
    Keeps-rev_is_hash rev git_root =
        Keeps-bind q.frame
          (Keeps-run_command git_root fl.git_cmd (codes "cat-file" ∷ codes "-t" ∷ rev ∷ []) refl)
          λ o. Keeps-is_hash_of_kind rev git_root _

    pub Keeps-get_revs :
        (local_dir branch rev : Text) → Keeps R (get_revs env fl local_dir branch rev)
    unfolding get_revs
    Keeps-get_revs local_dir branch rev =
        Keeps-bind q.frame (Keeps-local_hash_for_rev rev local_dir)
          λ _. Keeps-bind q.frame (Keeps-remote_hash_for_ref _ local_dir) λ _. Keeps-pure q.frame _
