-- ===== src/Worktree/Calls.antt =====
-- The commands that replace the symlink.
use git_sync.Common.{◌≡◌, refl, ap, subst, false, List, [], ◌∷◌, Text, codes, is_empty}
use git_sync.Path.{join_path}
use git_sync.Path.Rel.{IsName, rel-join_path}
use git_sync.Flags.{Flags}
use git_sync.Os.{
  Call, run, eval_symlinks, Env, Machine, Result, ok, err, Io, ◌>>◌, pure, attempt, os, os-machine,
  perform,
}
use git_sync.Os.Runs.{calls}
use git_sync.Os.Hoare.{After, Leads, Leads-pure, Leads-fail, Leads-bind, Leads-or_else, Leads-if}
use git_sync.Command.{run_command}
use git_sync.Disk.Steps.{run_command-Leads}
use git_sync.Worktree.{note, tmplink, old_worktree, update_symlink}

module _ (env : Env) (fl : Flags) where
  abbrev Made : List Call → Machine → Type 0
  Made cs m = calls m.history ≡ cs

  abbrev Any : Machine → Type 0
  Any m = Unit

  noted :
      {P : Machine → Type 0} {Q : Text → Machine → Type 0} (msg : Text) {x : Io Text}
      → Leads P x Q Any
      → Leads P (note msg x) Q Any
  noted msg h = Leads-or_else Any h λ e. Leads-fail _ λ m _. tt

  command :
      (cs : List Call) (cwd name : Text) (args : List Text)
      → Leads (Made cs) (run_command env cwd name args) (λ _. Made (run cwd [] name args ∷ cs)) Any
  unfolding calls
  command cs cwd name args =
      run_command-Leads env (λ _. Made (run cwd [] name args ∷ cs)) cwd name args
        (λ m h _. ap (λ k. run cwd [] name args ∷ k) h) λ m h. tt

  old :
      (cs : List Call) (r : Result Text)
      → Leads (Made cs) (old_worktree env fl r) (λ _. Made cs) Any
  unfolding old_worktree
  old cs (ok path) = Leads-pure path λ m h. h
  old cs (err e) = Leads-if e.not_exist (Leads-pure [] λ m h. h) (Leads-fail _ λ m _. tt)

  asked :
      (cs : List Call) (path : Text)
      → Leads
          (Made cs)
          (attempt (os env (eval_symlinks path)))
          (λ _. Made (eval_symlinks path ∷ cs))
          Any
  unfolding attempt calls perform
  asked cs path = record { leads = λ m h. rw os-machine (ap (λ k. eval_symlinks path ∷ k) h) }

  abbrev flip_calls : Text → Text → Text → List Call → List Call
  flip_calls git_root link hash cs =
      run git_root [] (codes "mv") (codes "-T" ∷ tmplink ∷ link ∷ [])
      ∷ run git_root [] (codes "ln") (codes "-snf" ∷ hash ∷ tmplink ∷ [])
      ∷ eval_symlinks (join_path git_root link)
      ∷ cs

  replaced :
      (git_root link hash name present : Text) (cs : List Call)
      → name ≡ hash
      → Leads
          (Made (eval_symlinks (join_path git_root link) ∷ cs))
          (note
              (codes "error creating symlink")
              (run_command env git_root (codes "ln") (codes "-snf" ∷ name ∷ tmplink ∷ []))
            >> (note
                  (codes "error replacing symlink")
                  (run_command env git_root (codes "mv") (codes "-T" ∷ tmplink ∷ link ∷ []))
                >> pure present))
          (λ _. Made (flip_calls git_root link hash cs))
          Any
  replaced git_root link hash name present cs e =
      Leads-bind
        (λ _. Made (
          run git_root [] (codes "ln") (codes "-snf" ∷ name ∷ tmplink ∷ [])
          ∷ eval_symlinks (join_path git_root link)
          ∷ cs))
        (noted (codes "error creating symlink") (command _ git_root (codes "ln") _))
        λ _.
          Leads-bind (λ _. Made (flip_calls git_root link name cs))
            (noted (codes "error replacing symlink") (command _ git_root (codes "mv") _))
            λ _. Leads-pure present λ m h. subst (λ k. Made (flip_calls git_root link k cs) m) e h

  update_symlink-Made :
      (git_root link hash : Text) (cs : List Call)
      → is_empty git_root ≡ false
      → IsName hash
      → Leads
          (Made cs)
          (update_symlink env fl git_root link (join_path git_root hash))
          (λ _. Made (flip_calls git_root link hash cs))
          Any
  unfolding update_symlink
  update_symlink-Made git_root link hash cs ne n =
      Leads-bind (λ _. Made (eval_symlinks (join_path git_root link) ∷ cs))
        (Leads-bind (λ _. Made (eval_symlinks (join_path git_root link) ∷ cs)) (asked cs _) (old _))
        λ present. rw (rel-join_path git_root hash ne n) (
          Leads-bind
            (λ name m. Made (eval_symlinks (join_path git_root link) ∷ cs) m × (name ≡ hash))
            (noted (codes "error converting to relative path") (Leads-pure hash λ m h. (h, refl)))
            λ name. record {
              leads = λ m p. (replaced git_root link hash name present cs p.1).leads m p.0;
            })

  -- For a worktree with a plain name below a root that is not empty: if the symlink is replaced without
  -- an error, then the calls that were made for it are a look at the old one, `ln -snf` of the plain
  -- name to `tmp-link`, and `mv -T` of that over the link, in this order and no other.
  pub update_symlink-calls :
      (git_root link hash present : Text) (m m' : Machine)
      → is_empty git_root ≡ false
      → IsName hash
      → update_symlink env fl git_root link (join_path git_root hash) m ≡ (ok present, m')
      → calls m'.history
        ≡ run git_root [] (codes "mv") (codes "-T" ∷ tmplink ∷ link ∷ [])
          ∷ run git_root [] (codes "ln") (codes "-snf" ∷ hash ∷ tmplink ∷ [])
          ∷ eval_symlinks (join_path git_root link)
          ∷ calls m.history
  update_symlink-calls git_root link hash present m m' ne n h =
      subst
        (λ r. After {A = Text} (λ _. Made (flip_calls git_root link hash (calls m.history))) Any r)
        h ((update_symlink-Made git_root link hash (calls m.history) ne n).leads m refl)
