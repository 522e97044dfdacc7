-- ===== src/Auth.antt =====
-- Credentials of cmd/git-sync/main.go: `setupGitAuth`, `callGitAskPassURL`.
pub mod Quiet
pub mod RoundTrip
use git_sync.Common.{
  ℕ, zero, suc, Bool, true, false, not, none, some, List, [], ◌∷◌, ◌++◌, ◌==◌, if◌then◌else◌, pos,
  itoa, Text, codes, quote, equal, split,
}
use git_sync.Flags.{Flags}
use git_sync.Os.{
  Env, Reply, Failure, Result, ok, err, Io, ◌>>=◌, ◌>>◌, pure, fail, attempt, or_else, defer, os,
  perform, http_request, http_do, read_body, close_file,
}
use git_sync.Command.{run_command, run_command_with_stdin}

-- `fmt.Errorf("…: %w", err)`: `os.IsNotExist` does not look into it.
abbrev pub wrap {ℓ} : {A : Type ℓ} → Text → Io A → Io A
wrap msg x =
    or_else x λ e. fail (record { message = msg ++ (codes ": " ++ e.message); not_exist = false })

-- Username and password.
pub record Credentials : Type 0 where
  pub username : Text
  pub password : Text

abbrev extend : ℕ → List Text → List Text
extend c [] = (c ∷ []) ∷ []
extend c (k ∷ rest) = (c ∷ k) ∷ rest

-- `strings.SplitN(line, "=", 2)`: a cut at the first `=` only.
unfoldable pub key_value : Text → List Text
key_value [] = [] ∷ []
key_value (c ∷ line) =
    let later = extend c (key_value line) in if c == b'=' then [] ∷ line ∷ [] else later

-- One round of the loop over the lines. A line with no `=`, or with another key, is passed over.
unfoldable pub read_line : Credentials → List Text → Credentials
read_line c (k ∷ v ∷ []) =
    if equal k (codes "username")
    then record c { username = v }
    else if equal k (codes "password")
    then record c { password = v }
    else c
read_line c _ = c

unfoldable pub read_lines : Credentials → List Text → Credentials
unfolding read_line key_value
read_lines c [] = c
read_lines c (line ∷ lines) = read_lines (read_line c (key_value line)) lines

unfoldable pub parse_auth_data : Text → Credentials
unfolding read_lines
parse_auth_data s = read_lines (record { username = []; password = [] }) (split b'\n' s)

module _ (env : Env) (fl : Flags) where
  unfoldable pub setup_git_auth : Text → Text → Text → Io (Unit {0})
  setup_git_auth username password git_url = do
    wrap (codes "can't configure git credential helper") (
        run_command env [] fl.git_cmd
          (codes "config" ∷ codes "--global" ∷ codes "credential.helper" ∷ codes "store" ∷ []))
    wrap (codes "can't configure git credentials") (
        run_command_with_stdin env []
          (codes "url="
            ++ (git_url
                ++ (codes "\nusername="
                    ++ (username ++ (codes "\npassword=" ++ (password ++ codes "\n"))))))
          fl.git_cmd (codes "credential" ∷ codes "approve" ∷ []))
    pure tt

  -- `netClient.Do`: the status code of the response, or an error.
  unfoldable pub client_do : Text → Io ℕ
  client_do url m =
      let (r, m') = perform env (http_do (codes "GET") url) m in
      elim r.failure [ none ↦ (ok r.status, m') | some e ↦ (err e, m') ]

  unfoldable pub status_failure : ℕ → Text → Failure
  status_failure status tail = record {
    message = codes "auth URL returned status " ++ (itoa (pos status) ++ tail);
    not_exist = false;
  }

  -- With a status other than 200 the body is only read for the message.
  unfoldable pub refuse_status : ℕ → Io Text
  refuse_status status =
      or_else (os env read_body)
        (λ e. fail (status_failure status (codes ", failed to read body: " ++ e.message)))
      >>= λ body. fail (status_failure status (codes ", body: " ++ quote body))

  -- The response's body, which is closed when the function returns.
  unfoldable pub read_response : ℕ → Io Text
  read_response status =
      if not (status == 200)
      then refuse_status status
      else wrap (codes "can't read auth response") (os env read_body)

  unfoldable pub approve_response : ℕ → Io (Unit {0})
  approve_response status = do
    auth_data ← read_response status
    let c = parse_auth_data auth_data
    setup_git_auth c.username c.password fl.repo

  unfoldable pub call_git_askpass_url : Text → Io (Unit {0})
  call_git_askpass_url url = do
    wrap (codes "can't create auth request") (os env (http_request (codes "GET") url))
    status ← wrap (codes "can't access auth URL") (client_do url)
    defer (os env (close_file url)) (approve_response status)
