-- ===== src/Tests/Logins.antt =====
-- Credentials.
use git_sync.Common.{◌≡◌, refl, codes}
use git_sync.Auth.{Credentials, parse_auth_data}
use git_sync.Auth.RoundTrip.{answer, parse_auth_data-answer}

-- A password that holds an equality sign.
abbrev login : Credentials
login = record { username = codes "u"; password = codes "a=b" }

parse_auth_data-answer_example : parse_auth_data (answer login) ≡ login
parse_auth_data-answer_example = parse_auth_data-answer login (refl, tt) (refl, (refl, (refl, tt)))
