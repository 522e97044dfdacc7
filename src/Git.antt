-- ===== src/Git.antt =====
-- The questions that cmd/git-sync/main.go puts to git: `localHashForRev`, `remoteHashForRef`,
-- `revIsHash` and `getRevs`.
use git_sync.Common.{
  Bool, false, List, [], ◌∷◌, ◌++◌, if◌then◌else◌, Text, codes, equal, not, has_prefix, trim, split,
}
use git_sync.Flags.{Flags}
use git_sync.Os.{Env, Io, ◌>>=◌, pure}
use git_sync.Command.{run_command}

-- `parts[0]` of a split, which is never empty.
abbrev pub first : List Text → Text
first [] = []
first (s ∷ _) = s

-- The name under which the remote is asked: a branch for HEAD, and a tag otherwise.
unfoldable pub remote_ref : Text → Text → Text
remote_ref branch rev =
    if equal rev (codes "HEAD") then codes "refs/heads/" ++ branch else codes "refs/tags/" ++ rev

module _ (env : Env) (fl : Flags) where
  unfoldable pub local_hash_for_rev : Text → Text → Io Text
  local_hash_for_rev rev git_root = do
    output ← run_command env git_root fl.git_cmd (codes "rev-parse" ∷ rev ∷ [])
    pure (trim b'\n' output)

  unfoldable pub remote_hash_for_ref : Text → Text → Io Text
  remote_hash_for_ref ref git_root = do
    output ←
        run_command env git_root fl.git_cmd
          (codes "ls-remote" ∷ codes "-q" ∷ codes "origin" ∷ ref ∷ [])
    pure (first (split b'\t' output))

  -- Behind `cat-file -t`, whose output is trimmed to `o`.
  unfoldable pub is_hash_of_kind : Text → Text → Text → Io Bool
  is_hash_of_kind rev git_root o =
      if not (equal o (codes "commit"))
      then pure false
      else local_hash_for_rev rev git_root >>= λ hash. pure (has_prefix hash rev)

  unfoldable pub rev_is_hash : Text → Text → Io Bool
  rev_is_hash rev git_root = do
    output ← run_command env git_root fl.git_cmd (codes "cat-file" ∷ codes "-t" ∷ rev ∷ [])
    is_hash_of_kind rev git_root (trim b'\n' output)

  unfoldable pub get_revs : Text → Text → Text → Io (Text × Text)
  get_revs local_dir branch rev = do
    local ← local_hash_for_rev rev local_dir
    remote ← remote_hash_for_ref (remote_ref branch rev) local_dir
    pure (local, remote)
