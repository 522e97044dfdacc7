-- ===== src/Disk.antt =====
-- An abstract view of the disk, read off the calls that a run has made: where the temporary symlink
-- points and which commit each working directory holds. It is what `ln`, `mv`, `git reset` and
-- `os.RemoveAll` promise; a call that does not succeed leaves nothing to rely on.
pub mod Link
pub mod Quiet
pub mod Steps
pub mod Points
use git_sync.Common.{
  Bool, true, false, ◌&&◌, ◌||◌, Option, none, some, List, [], ◌∷◌, ◌++◌, if◌then◌else◌, Text,
  codes, equal, has_prefix, ◌≡◌,
}
use git_sync.Path.{join_path}
use git_sync.Os.{Call, run, remove_all, write_temp, rename, Reply, Event, History}
use git_sync.Worktree.{tmplink}

-- What a call is to the disk. Directories come first.
pub data Action : Type 0 where
  link_to : Text → Text → Action
  flip : Text → Text → Action
  check_out : Text → Text → Action
  remove : Text → Action
  -- the content is written to a temporary file
  fill : Text → Text → Action
  -- a file takes the place of another
  put : Text → Text → Action
  other : Action

-- Commands are told apart by their options, which no two of them share.
abbrev command_action : Text → Text → List Text → Action
command_action cwd command (a ∷ b ∷ c ∷ _) =
    if equal a (codes "-snf") && equal command (codes "ln")
    then link_to cwd b
    else if equal a (codes "-T") && equal command (codes "mv")
    then flip cwd c
    else if equal a (codes "reset") && equal b (codes "--hard")
    then check_out cwd c
    else other
command_action cwd command _ = other

unfoldable pub action : Call → Action
unfolding equal
action (run cwd stdin command args) = command_action cwd command args
action (remove_all path) = remove path
action (write_temp file content) = fill file content
action (rename file path) = put file path
action _ = other

pub record Disk : Type 0 where
  -- the directory that the symlink at a path points to
  pub tmp : Text → Option Text
  -- the commit that a directory was last reset to
  pub tree : Text → Option Text

abbrev pub update : (Text → Option Text) → Text → Option Text → Text → Option Text
update f k v q = if equal k q then v else f q

-- The path `q` is `p` or lies below it.
abbrev pub inside : Text → Text → Bool
inside p q = equal p q || has_prefix q (p ++ codes "/")

abbrev without : Text → (Text → Option Text) → Text → Option Text
without p f q = if inside p q then none else f q

abbrev pub effect : Action → Bool → Disk → Disk
effect (link_to cwd dst) done d = record d {
  tmp = update d.tmp (join_path cwd tmplink) (if done then some (join_path cwd dst) else none);
}
effect (flip cwd link) done d = record d { tmp = update d.tmp (join_path cwd tmplink) none }
effect (check_out cwd hash) done d = record d {
  tree = update d.tree cwd (if done then some hash else none);
}
effect (remove path) done d = record { tmp = without path d.tmp; tree = without path d.tree }
effect (fill file content) done d = d
effect (put file path) done d = d
effect other done d = d

abbrev pub succeeded : Reply → Bool
succeeded r = elim r.failure [ none ↦ true | some _ ↦ false ]

abbrev nothing : Disk
nothing = record { tmp = λ _. none; tree = λ _. none }

unfoldable pub view : History → Disk
unfolding action
view [] = nothing
view (e ∷ h) = effect (action e.call) (succeeded e.reply) (view h)

-- The temporary link in `cwd` points to a directory that was completely checked out.
pub record Complete (cwd : Text) (d : Disk) : Type 0 where
  pub dir : Text
  pub hash : Text
  pub points : d.tmp (join_path cwd tmplink) ≡ some dir
  pub holds : d.tree dir ≡ some hash

abbrev pub FlipIsSafe : Action → Disk → Type 0
FlipIsSafe (flip cwd link) d = Complete cwd d
FlipIsSafe _ d = Unit

-- Whenever a symlink was replaced, or its replacement was tried, the new one pointed to a directory
-- that was completely checked out.
abbrev pub IsSafe : History → Type 0
IsSafe [] = Unit
IsSafe (e ∷ h) = FlipIsSafe (action e.call) (view h) × IsSafe h
