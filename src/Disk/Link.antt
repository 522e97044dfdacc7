-- ===== src/Disk/Link.antt =====
-- Where the published symlink points, read off the calls like the rest of the view: `mv -T` puts the
-- temporary link in its place. What removes or replaces it otherwise leaves nothing to rely on.
use git_sync.Common.{Bool, true, false, Option, none, [], ◌∷◌, if◌then◌else◌, Text, equal, ◌≡◌}
use git_sync.Path.{join_path}
use git_sync.Os.{Event, History}
use git_sync.Worktree.{tmplink}
use git_sync.Disk.{
  Action, link_to, flip, check_out, remove, fill, put, other, action, Disk, inside, succeeded, view,
}

abbrev lost : Bool → Option Text → Option Text
lost gone before = if gone then none else before

abbrev pub shown : Text → Action → Bool → Disk → Option Text → Option Text
shown link (link_to cwd dst) done d before = lost (equal (join_path cwd tmplink) link) before
shown link (flip cwd name) done d before =
    if equal (join_path cwd name) link
    then if done then d.tmp (join_path cwd tmplink) else none
    else before
shown link (check_out cwd hash) done d before = before
shown link (remove path) done d before = lost (inside path link) before
shown link (fill file content) done d before = before
shown link (put file path) done d before = lost (equal path link) before
shown link other done d before = before

unfoldable pub published : Text → History → Option Text
unfolding view action
published link [] = none
published link (e ∷ h) = shown link (action e.call) (succeeded e.reply) (view h) (published link h)

abbrev pub is_flip : Action → Bool
is_flip (flip cwd name) = true
is_flip (link_to cwd dst) = false
is_flip (check_out cwd hash) = false
is_flip (remove path) = false
is_flip (fill file content) = false
is_flip (put file path) = false
is_flip other = false

-- The later history, with no replacement of a symlink, and no try of one, since the earlier one.
pub data IsUnflipped (base : History) : History → Type 0 where
  same : IsUnflipped base base
  later :
      (e : Event) {h : History}
      → is_flip (action e.call) ≡ false
      → IsUnflipped base h
      → IsUnflipped base (e ∷ h)
