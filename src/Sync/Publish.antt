-- ===== src/Sync/Publish.antt =====
-- A sync without an error leaves the symlink at the new commit.
use git_sync.Common.{
  ◌≡◌, refl, ◌∙◌, sym, ap, subst, Bool, true, false, Option, none, some, [], ◌∷◌, ◌++◌, ℤ, Text,
  codes, equal_refl, is_empty,
}
use git_sync.Path.{join_path, rel}
use git_sync.Path.Rel.{IsName, rel-join_path}
use git_sync.Flags.{Flags}
use git_sync.Os.{
  open_file, close_file, create_file, copy_file, write_file, Env, History, Machine, Failure, Result,
  ok, err, Io, ◌>>=◌, os, os-machine, perform,
}
use git_sync.Os.Frame.{Keeps, Keeps-pure, Keeps-fail, Keeps-bind}
use git_sync.Os.Hoare.{Any, any-Leads, After, Leads, Leads-bind, Leads-if, Leads-defer, Keeps-Leads}
use git_sync.Os.Runs.{bind-ok, attempt-any}
use git_sync.Git.{rev_is_hash}
use git_sync.Worktree.{cleanup_work_tree, git, or_fail, sparse_checkout_then, maybe_sparse}
use git_sync.Worktree.Safe.{
  Keeps-note, Keeps-git, Keeps-update_submodules, Keeps-change_permissions,
}
use git_sync.Worktree.Leaves.{tree_at}
use git_sync.Worktree.Publish.{Published, PointsElsewhere, swap_and_clean_up-Leads}
use git_sync.Sync.{check_out_and_swap, build_worktree, if_resolved, add_worktree_and_swap, sync_to}
use git_sync.Sync.Outcome.{reported, fetch, sync_to-reports}
use git_sync.Disk.{action, view}
use git_sync.Disk.Link.{published, IsUnflipped, same, later}
use git_sync.Disk.Quiet.{
  IsQuietFrame, quiet_frame, Keeps-os, Keeps-mkdir_if_absent, Keeps-rev_is_hash,
}
use git_sync.Disk.Steps.{Same, Same-IsQuietFrame, run_command-Leads, os-Leads}

module _ (env : Env) (base : History) where
  -- No symlink is replaced.
  Unflipped : Machine → Machine → Type 0
  Unflipped m m' = IsUnflipped base m.history → IsUnflipped base m'.history

  Unflipped-IsQuietFrame : IsQuietFrame env Unflipped
  unfolding Unflipped perform action
  Unflipped-IsQuietFrame =
      quiet_frame env (record { same = λ m u. u; trans = λ m m' m'' a b u. b (a u) })
        (λ c m q u. later (record { call = c; reply = env m.history c }) (rw q refl) u)
        (λ file content m u. later _ refl u) λ file path m u. later _ refl u

  cleanup-Unflipped :
      (fl : Flags) (git_root worktree : Text)
      → Keeps Unflipped (cleanup_work_tree env fl git_root worktree)
  unfolding cleanup_work_tree Unflipped perform action
  cleanup-Unflipped fl git_root worktree =
      Keeps-bind q.frame
        (Keeps-note q fl (codes "error removing directory")
          (record { keeps = λ m. rw os-machine (later _ refl) }))
        λ _.
          Keeps-bind q.frame (Keeps-git q fl git_root (codes "worktree" ∷ codes "prune" ∷ []) refl)
            λ _. Keeps-pure q.frame tt
    where
      q : IsQuietFrame env Unflipped
      q = Unflipped-IsQuietFrame

module _ (env : Env) (fl : Flags) (git_root dest hash : Text) (base : History)
    (rooted : is_empty git_root ≡ false) (named : IsName hash)
    (elsewhere : PointsElsewhere env base (join_path git_root dest) (join_path git_root hash)) where
  abbrev dir : Text
  dir = join_path git_root hash

  abbrev IsPublished : Machine → Type 0
  IsPublished = Published (join_path git_root dest) dir hash

  Since : Machine → Type 0
  Since m = IsUnflipped base m.history

  q : IsQuietFrame env (Unflipped env base)
  q = Unflipped-IsQuietFrame env base

  -- The last condition is reached from any state in which no symlink was replaced.
  abbrev Publishes : Io (Unit {0}) → Type 0
  Publishes x = Leads Since x (λ _. IsPublished) Any

  first :
      {A : Type 0} {x : Io A} {f : A → Io (Unit {0})}
      → Keeps (Unflipped env base) x
      → ((a : A) → Publishes (f a))
      → Publishes (x >>= f)
  unfolding Since Unflipped
  first k h = Leads-bind (λ _. Since) (Keeps-Leads k (λ a m m' u. u) λ m m' u s. tt) h

  HasTree : Machine → Type 0
  HasTree m = IsUnflipped base m.history × (tree_at dir m ≡ some hash)

  reset-Leads :
      Leads Since (git env fl dir (codes "reset" ∷ codes "--hard" ∷ hash ∷ [])) (λ _. HasTree) Any
  unfolding view action Since HasTree
  reset-Leads =
      run_command-Leads env (λ _. HasTree) _ _ _
        (λ m h s. (later _ refl h, rw (equal_refl, s) refl)) λ m h. tt

  -- Neither another directory nor a symlink is touched.
  kept :
      {x : Io (Unit {0})}
      → Keeps Same x
      → Keeps (Unflipped env base) x
      → Leads HasTree x (λ _. HasTree) Any
  unfolding HasTree Unflipped
  kept {x} k u = record { leads = λ m h. from m (x m) h (k.keeps m) (u.keeps m) }
    where
      from :
          (m : Machine) (r : Result (Unit {0}) × Machine)
          → HasTree m
          → Same m r.1
          → Unflipped env base m r.1
          → After {A = Unit {0}} (λ _. HasTree) Any r
      from m (ok _, m') h s v = (v h.0, ap (λ d. d.tree dir) s.shows ∙ h.1)
      from m (err _, m') h s v = tt

  check_out_and_swap-Publishes :
      (depth : ℤ) (submodule_mode : Text)
      → Publishes (check_out_and_swap env fl git_root dest depth hash submodule_mode dir)
  unfolding check_out_and_swap HasTree
  check_out_and_swap-Publishes depth submodule_mode =
      Leads-bind (λ _. HasTree) reset-Leads
        λ _.
          Leads-bind (λ _. HasTree)
            (kept (Keeps-update_submodules (Same-IsQuietFrame env) fl dir depth submodule_mode)
              (Keeps-update_submodules q fl dir depth submodule_mode))
            λ _.
              Leads-bind (λ _. HasTree)
                (kept (Keeps-change_permissions (Same-IsQuietFrame env) fl dir)
                  (Keeps-change_permissions q fl dir))
                λ _.
                  swap_and_clean_up-Leads env fl git_root dest (join_path git_root dest) dir hash
                    base elsewhere hash (rel-join_path git_root hash rooted named) refl refl

  close-Leads :
      (path : Text) → Leads IsPublished (os env (close_file path)) (λ _. IsPublished) IsPublished
  unfolding view action published
  close-Leads path =
      os-Leads env (λ _. IsPublished) (close_file path)
        (λ m h s. record { points = h.points; holds = h.holds; ready = h.ready })
        λ m h. record { points = h.points; holds = h.holds; ready = h.ready }

  maybe_sparse-Publishes :
      (info_path work_dir : Text) {rest : Io (Unit {0})}
      → Publishes rest
      → Publishes (maybe_sparse env fl info_path work_dir rest)
  unfolding maybe_sparse sparse_checkout_then action
  maybe_sparse-Publishes info_path work_dir h = Leads-if (is_empty fl.sparse_checkout_file) h (
      first (Keeps-os q (open_file _) refl) λ _.
        Leads-defer
          (first (Keeps-mkdir_if_absent q fl info_path) λ _.
            first (Keeps-os q (create_file _) refl) λ _.
              Leads-defer
                (first (Keeps-os q (copy_file _ _) refl) λ _.
                  first (Keeps-git q fl work_dir (codes "sparse-checkout" ∷ codes "init" ∷ []) refl)
                    λ _. h)
                (λ _. close-Leads _) (any-Leads _))
          (λ _. close-Leads _) (any-Leads _))

  or_fail-Unflipped :
      {A : Type 0} (e : Failure) (o : Option A) → Keeps (Unflipped env base) (or_fail e o)
  or_fail-Unflipped e none = Keeps-fail q.frame e
  or_fail-Unflipped e (some a) = Keeps-pure q.frame a

  build_worktree-Publishes :
      (branch : Text) (depth : ℤ) (submodule_mode : Text)
      → Publishes (build_worktree env fl git_root dest branch depth hash submodule_mode)
  unfolding build_worktree action
  build_worktree-Publishes branch depth submodule_mode =
      first (Keeps-git q fl git_root (codes "gc" ∷ codes "--prune=all" ∷ []) refl) λ _.
        first (cleanup-Unflipped env base fl git_root dir) λ _.
          first
            (Keeps-git q fl git_root
              (codes "worktree"
                ∷ codes "add"
                ∷ dir
                ∷ (codes "origin/" ++ branch)
                ∷ codes "--no-checkout"
                ∷ [])
              refl)
            λ _. first (or_fail-Unflipped _ (rel git_root dir)) λ relative.
              first (Keeps-os q (write_file _ _ 0o644) refl)
                λ _. maybe_sparse-Publishes _ _ (check_out_and_swap-Publishes depth submodule_mode)

  by_report :
      (r : Result (Unit {0}) × Machine) (last : Machine)
      → After {A = Unit {0}} (λ _. IsPublished) Any r
      → reported hash r ≡ (ok (true, hash), last)
      → IsPublished last
  unfolding reported
  by_report (ok _, m) last h e = subst IsPublished (ap (λ p. p.1) e) h
  by_report (err _, m) last h e = cc (ap (λ p. p.0) e)

  -- Behind the fetch and the question for the hash.
  behind_build :
      (branch rev : Text) (depth : ℤ) (submodule_mode : Text) (m m' m'' last : Machine) (out : Text)
      (resolved : Bool)
      → IsUnflipped base m''.history
      → fetch env fl git_root branch depth m ≡ (ok out, m')
      → rev_is_hash env fl hash git_root m' ≡ (ok resolved, m'')
      → sync_to env fl git_root dest branch rev depth submodule_mode (some hash) m
        ≡ (ok (true, hash), last)
      → IsPublished last
  unfolding add_worktree_and_swap if_resolved Since
  behind_build branch rev depth submodule_mode m m' m'' last out resolved u h g e =
      by_report _ last ((build_worktree-Publishes branch depth submodule_mode).leads m'' u) (
        ap (reported hash) (sym (bind-ok _ _ h ∙ bind-ok _ _ (attempt-any _ g)))
        ∙ (sym (sync_to-reports env fl git_root dest branch rev depth submodule_mode hash m) ∙ e))

module _ (env : Env) (fl : Flags) (git_root dest hash : Text) where
  -- Let the fetch succeed and the hash resolve, under a root that is not empty and for a hash that is a plain
  -- file name. Let the symlink, where it is resolved before the sync replaces it, not lead to the
  -- directory of that hash, or to one above it or above the link. If the sync then reports the hash as a
  -- change, with no error, the symlink points to the directory of the hash, which was reset to it and not
  -- removed since, and the repository is ready.
  pub sync_to-publishes :
      (branch rev : Text) (depth : ℤ) (submodule_mode : Text) (m m' m'' last : Machine) (out : Text)
      (resolved : Bool)
      → is_empty git_root ≡ false
      → IsName hash
      → PointsElsewhere env m.history (join_path git_root dest) (join_path git_root hash)
      → fetch env fl git_root branch depth m ≡ (ok out, m')
      → rev_is_hash env fl hash git_root m' ≡ (ok resolved, m'')
      → sync_to env fl git_root dest branch rev depth submodule_mode (some hash) m
        ≡ (ok (true, hash), last)
      → Published (join_path git_root dest) (join_path git_root hash) hash last
  unfolding Unflipped action
  sync_to-publishes branch rev depth submodule_mode m m' m'' last out resolved rooted named
        elsewhere h g e =
      behind_build env fl git_root dest hash m.history rooted named elsewhere branch rev depth
        submodule_mode m m' m'' last out resolved asked h g e
    where
      q : IsQuietFrame env (Unflipped env m.history)
      q = Unflipped-IsQuietFrame env m.history

      fetched : IsUnflipped m.history m'.history
      fetched =
          subst (λ r. IsUnflipped m.history r.1.history) h
            ((Keeps-git q fl git_root _ refl).keeps m same)

      asked : IsUnflipped m.history m''.history
      asked =
          subst (λ r. IsUnflipped m.history r.1.history) g
            ((Keeps-rev_is_hash q fl hash git_root).keeps m' fetched)
