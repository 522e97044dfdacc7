-- ===== src/Disk/Points.antt =====
-- Calls that leave the published symlink alone, and the writing of an error file that lies elsewhere.
use git_sync.Common.{◌≡◌, refl, ◌∙◌, ap, false, [], ◌∷◌, List, Text, codes, equal, is_empty, not}
use git_sync.Path.{join_path}
use git_sync.Flags.{Flags}
use git_sync.Os.{
  Call, stat, mkdir, temp_file, close_file, chmod_file, run, Env, Machine, Failure, Result, ok, err,
  ◌>>=◌, attempt, perform, os, os-machine,
}
use git_sync.Os.Frame.{IsFrame, Keeps, Keeps-pure, Keeps-bind, Keeps-attempt, Keeps-defer, Keeps-if}
use git_sync.Command.{run_command, run_command_with_stdin}
use git_sync.Git.{local_hash_for_rev, is_hash_of_kind, rev_is_hash}
use git_sync.Logger.{
  Value, ignore, absent_then_mkdir, mkdir_if_absent, fill_and_rename, write_content, log_error,
}
use git_sync.Disk.{other, action, succeeded, view}
use git_sync.Disk.Link.{shown, published}

module _ (env : Env) (fl : Flags) (link : Text) where
  -- The symlink points where it did.
  unfoldable pub Points : Machine → Machine → Type 0
  Points m m' = published link m'.history ≡ published link m.history

  Points-IsFrame : IsFrame Points
  unfolding Points
  Points-IsFrame = record { same = λ m. refl; trans = λ m m' m'' a b. b ∙ a }

  perform-Points : (c : Call) (m : Machine) → action c ≡ other → Points m (perform env c m).1
  unfolding Points perform published
  perform-Points c m h =
      ap
        (λ a.
          shown link a (succeeded (env m.history c)) (view m.history) (published link m.history))
        h

  call-Points : (c : Call) → action c ≡ other → Keeps Points (os env c)
  call-Points c h = record { keeps = λ m. rw os-machine (perform-Points c m h) }

  pub run_command-Points :
      (cwd command : Text) (args : List Text)
      → action (run cwd [] command args) ≡ other
      → Keeps Points (run_command env cwd command args)
  unfolding run_command run_command_with_stdin
  run_command-Points cwd command args h = record {
    keeps = λ m. perform-Points (run cwd [] command args) m h;
  }

  kind-Points : (rev git_root o : Text) → Keeps Points (is_hash_of_kind env fl rev git_root o)
  unfolding is_hash_of_kind local_hash_for_rev action
  kind-Points rev git_root o =
      Keeps-if Points-IsFrame (not (equal o (codes "commit"))) (Keeps-pure Points-IsFrame false) (
        Keeps-bind Points-IsFrame
          (Keeps-bind Points-IsFrame
            (run_command-Points git_root fl.git_cmd (codes "rev-parse" ∷ rev ∷ []) refl)
            λ _. Keeps-pure Points-IsFrame _)
          λ _. Keeps-pure Points-IsFrame _)

  pub rev_is_hash-Points : (rev git_root : Text) → Keeps Points (rev_is_hash env fl rev git_root)
  unfolding rev_is_hash action
  rev_is_hash-Points rev git_root =
      Keeps-bind Points-IsFrame
        (run_command-Points git_root fl.git_cmd (codes "cat-file" ∷ codes "-t" ∷ rev ∷ []) refl)
        λ o. kind-Points rev git_root _

  mkdir-Points : (path : Text) (r : Result Text) → Keeps Points (absent_then_mkdir env fl path r)
  unfolding absent_then_mkdir action
  mkdir-Points path (ok _) = Keeps-pure Points-IsFrame tt
  mkdir-Points path (err e) =
      Keeps-if Points-IsFrame e.not_exist
        (Keeps-bind Points-IsFrame (call-Points (mkdir path 0o755) refl)
          λ _. Keeps-pure Points-IsFrame tt)
        (Keeps-pure Points-IsFrame tt)

  module _ (apart : equal (join_path fl.root fl.error_file) link ≡ false) where
    fill-Points : (content tmp : Text) → Keeps Points (fill_and_rename env fl content tmp)
    unfolding fill_and_rename Points perform published view action
    fill-Points content tmp = Keeps-defer Points-IsFrame (call-Points (close_file tmp) refl) (
        Keeps-bind Points-IsFrame (record { keeps = λ m. rw os-machine refl })
          λ _.
            Keeps-bind Points-IsFrame (record { keeps = λ m. rw (os-machine, apart) refl })
              λ _. call-Points (chmod_file (join_path fl.root fl.error_file) 0o644) refl)

    pub log_error-Points :
        (e : Failure) (msg : Text) (kvs : List Value) → Keeps Points (log_error env fl e msg kvs)
    unfolding log_error write_content mkdir_if_absent ignore action
    log_error-Points e msg kvs =
        Keeps-if Points-IsFrame (is_empty fl.error_file) (Keeps-pure Points-IsFrame tt)
          (record { keeps = λ m. (written _).keeps m })
      where
        written :
            (content : Text)
            → Keeps Points (
                (attempt (os env (stat fl.root)) >>= absent_then_mkdir env fl fl.root) >>= λ _.
                os env (temp_file fl.root (codes "tmp-err-")) >>= λ tmp.
                fill_and_rename env fl content tmp)
        written content =
            Keeps-bind Points-IsFrame
              (Keeps-bind Points-IsFrame
                (Keeps-attempt Points-IsFrame (call-Points (stat fl.root) refl))
                (mkdir-Points fl.root))
              λ _.
                Keeps-bind Points-IsFrame (call-Points (temp_file fl.root (codes "tmp-err-")) refl)
                  λ tmp. fill-Points content tmp
