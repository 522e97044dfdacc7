-- ===== src/Tests/Paths.antt =====
-- Paths, as Go's library computes them.
use git_sync.Common.{◌≡◌, refl, none, some, [], codes, equal, split, join}
use git_sync.Path.{
  go_up, push_part, clean_path, render, clean, join_path, equal_parts, rel_parts, rel_clean, rel,
}

cleaned :
    (clean (codes "/a/./b//../c") ≡ codes "/a/c")
    × (clean (codes "a/../../b") ≡ codes "../b")
    × (clean [] ≡ codes ".")
unfolding go_up push_part clean_path render clean split join equal
cleaned = (refl, refl, refl)

joined_and_related :
    (join_path (codes "/git") (codes ".git/../x") ≡ codes "/git/x")
    × (rel (codes "/git") (codes "/git/x/y") ≡ some (codes "x/y"))
    × (rel (codes "/git/a") (codes "/b") ≡ some (codes "../../b"))
    × (rel (codes "/git") (codes "x") ≡ none)
unfolding go_up push_part clean_path render clean join_path equal_parts rel_parts rel_clean rel
    split join equal
joined_and_related = (refl, refl, refl, refl)
