-- ===== src/Auth/RoundTrip.antt =====
-- What the answer of GIT_ASKPASS_URL is read to.
use git_sync.Common.{◌≡◌, refl, [], ◌∷◌, ◌++◌, false, ◌==◌, All, Text, codes, split, equal}
use git_sync.Path.Clean.{split-append, split-no_slash}
use git_sync.Auth.{Credentials, key_value, read_line, read_lines, parse_auth_data}

-- The answer that the documentation asks for.
pub answer : Credentials → Text
answer c =
    codes "username="
    ++ (c.username ++ (b'\n' ∷ (codes "password=" ++ (c.password ++ (b'\n' ∷ [])))))

abbrev pub IsLine : Text → Type 0
IsLine s = All (λ c. (c == b'\n') ≡ false) s

lines :
    (c : Credentials)
    → IsLine c.username
    → IsLine c.password
    → split b'\n' (answer c)
      ≡ (codes "username=" ++ c.username) ∷ (codes "password=" ++ c.password) ∷ [] ∷ []
unfolding answer split
lines c u p =
    rw
      (
        split-append b'\n' c.username (codes "password=" ++ (c.password ++ (b'\n' ∷ []))),
        split-no_slash b'\n' c.username u,
        split-append b'\n' c.password [],
        split-no_slash b'\n' c.password p,
      )
      refl

-- A username and a password, neither of which holds a line break, come out of their answer as they
-- are, also where they hold a `=`.
pub parse_auth_data-answer :
    (c : Credentials) → IsLine c.username → IsLine c.password → parse_auth_data (answer c) ≡ c
unfolding parse_auth_data read_lines read_line key_value equal
parse_auth_data-answer c u p = rw (lines c u p) refl
