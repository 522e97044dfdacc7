-- ===== src/Setup.antt =====
-- The start of `main` in cmd/git-sync/main.go behind the checks on the flags: `addUser`, and the
-- set-up of credentials, of SSH, of the cookie file, of further git configs and of the HTTP endpoint. An error stands for
-- `os.Exit(1)`, behind what is written before it.
pub mod Configs
pub mod Quiet
use git_sync.Common.{
  Bool, true, false, not, List, [], ◌∷◌, ◌++◌, if◌then◌else◌, pos, itoa, Text, codes, quote,
  is_empty,
}
use git_sync.Flags.{Flags}
use git_sync.Os.{
  stat, read_file, set_env, get_env, get_wd, get_uid, get_gid, open_append, write_opened,
  close_file, listen, Call, Env, Machine, Failure, Result, ok, err, Io, ◌>>=◌, ◌>>◌, pure, fail,
  or_else, defer, perform, os,
}
use git_sync.Logger.{log_error, export_error}
use git_sync.Command.{run_command}
use git_sync.Auth.{wrap, setup_git_auth, call_git_askpass_url}
use git_sync.Sync.{count_askpass}
use git_sync.GitConfig
use git_sync.GitConfig.{KeyVal, ParseError, parse_git_configs}

-- `fmt.Errorf("…: %v", err)` on an error that is printed.
abbrev pub failure_text : Text → Failure
failure_text message = record { message = message; not_exist = false }

abbrev pub passwd : Text
passwd = codes "/etc/passwd"

abbrev pub cookie_path : Text
cookie_path = codes "/etc/git-secret/cookie_file"

-- What the parser's errors print is a parameter: nothing depends on it.
module _ (env : Env) (fl : Flags) (error_text : ParseError → Text) where
  -- `handleError`; the usage goes to the standard error, which is left out.
  unfoldable pub handle_error {ℓ} : {A : Type ℓ} → Text → Io A
  handle_error message = export_error env fl message >> fail (failure_text message)

  abbrev pub or_handle {ℓ} : {A : Type ℓ} → Text → Io A → Io A
  or_handle message x = or_else x λ e. handle_error (message ++ e.message)

  -- A call that gives a text and no error.
  unfoldable pub ask : Call → Io Text
  ask c m = let (r, m') = perform env c m in (ok r.output, m')

  unfoldable pub ask_number : Call → Io Text
  ask_number c m = let (r, m') = perform env c m in (ok (itoa (pos r.status)), m')

  unfoldable pub home_or_cwd : Text → Io Text
  home_or_cwd home =
      if is_empty home
      then wrap (codes "can't get working directory and $HOME is not set") (os env get_wd)
      else pure home

  unfoldable pub add_user : Io (Unit {0})
  add_user = do
    env_home ← ask (get_env (codes "HOME"))
    home ← home_or_cwd env_home
    os env (open_append passwd)
    defer (os env (close_file passwd)) do
      uid ← ask_number get_uid
      gid ← ask_number get_gid
      os env (
          write_opened passwd (
            codes "git-sync:x:"
            ++ (uid ++ (codes ":" ++ (gid ++ (codes "::" ++ (home ++ codes ":/sbin/nologin\n")))))))
    pure tt

  abbrev ssh_with_hosts : Text
  ssh_with_hosts =
      codes "ssh -q -o UserKnownHostsFile="
      ++ (fl.ssh_known_hosts_file ++ (codes " -i " ++ fl.ssh_key_file))

  abbrev ssh_without_hosts : Text
  ssh_without_hosts =
      codes "ssh -q -o UserKnownHostsFile=/dev/null -o StrictHostKeyChecking=no -i "
      ++ fl.ssh_key_file

  unfoldable pub known_hosts : Bool → Io Text
  known_hosts true =
      wrap (codes "can't access SSH known_hosts") (os env (stat fl.ssh_known_hosts_file))
      >> pure ssh_with_hosts
  known_hosts false = pure ssh_without_hosts

  unfoldable pub setup_git_ssh : Bool → Io (Unit {0})
  setup_git_ssh setup_known_hosts = do
    wrap (codes "can't access SSH key") (os env (stat fl.ssh_key_file))
    command ← known_hosts setup_known_hosts
    wrap (codes "can't set $GIT_SSH_COMMAND") (os env (set_env (codes "GIT_SSH_COMMAND") command))
    pure tt

  abbrev config_args : Text → Text → List Text
  config_args key val = codes "config" ∷ codes "--global" ∷ key ∷ val ∷ []

  unfoldable pub setup_git_cookie_file : Io (Unit {0})
  setup_git_cookie_file = do
    wrap (codes "can't access git cookiefile") (os env (stat cookie_path))
    wrap (codes "can't configure git cookiefile")
        (run_command env [] fl.git_cmd (config_args (codes "http.cookiefile") cookie_path))
    pure tt

  -- The loop over the pairs.
  unfoldable pub set_configs : List KeyVal → Io (Unit {0})
  set_configs [] = pure tt
  set_configs (kv ∷ kvs) = do
    or_else (run_command env [] fl.git_cmd (config_args kv.key kv.val)) λ e. fail (
        failure_text (
          codes "error configuring additional git configs "
          ++ (quote kv.key ++ (codes " " ++ (quote kv.val ++ (codes ": " ++ e.message))))))
    set_configs kvs

  unfoldable pub set_parsed : GitConfig.Result (List KeyVal) → Io (Unit {0})
  set_parsed (GitConfig.ok configs) = set_configs configs
  set_parsed (GitConfig.err e) =
      fail (failure_text (codes "can't parse --git-config flag: " ++ error_text e))

  unfoldable pub setup_extra_git_configs : Text → Io (Unit {0})
  setup_extra_git_configs configs_flag = set_parsed (parse_git_configs configs_flag)

  -- The password, which a file may hold.
  unfoldable pub find_password : Io Text
  find_password =
      if is_empty fl.password_file
      then pure fl.password
      else or_else (os env (read_file fl.password_file))
          λ e. log_error env fl e (codes "ERROR: can't read password file") [] >> fail e

  abbrev pub when : Bool → Io (Unit {0}) → Io (Unit {0})
  when b x = if b then x else pure tt

  unfoldable pub initial_askpass : Io (Unit {0})
  initial_askpass = do
    or_else (call_git_askpass_url env fl fl.askpass_url) λ e.
        count_askpass false
        >> handle_error (codes "ERROR: failed to call ASKPASS callback URL: " ++ e.message)
    count_askpass true

  -- The endpoint is bound; the requests to it are served beside the loop.
  unfoldable pub start_server : Io (Unit {0})
  start_server =
      or_handle (codes "ERROR: unable to bind HTTP endpoint: ")
        (os env (listen fl.http_bind) >> pure tt)

  unfoldable pub set_up : Io (Unit {0})
  set_up = do
    when fl.add_user (or_handle (codes "ERROR: can't write to /etc/passwd: ") add_user)
    when (not (is_empty fl.username)) (
        find_password >>= λ password.
        or_handle (codes "ERROR: can't create .netrc file: ")
          (setup_git_auth env fl fl.username password fl.repo))
    when fl.ssh
        (or_handle (codes "ERROR: can't configure SSH: ") (setup_git_ssh fl.ssh_known_hosts))
    when fl.cookie_file
        (or_handle (codes "ERROR: can't set git cookie file: ") setup_git_cookie_file)
    when (not (is_empty fl.askpass_url)) initial_askpass
    when (not (is_empty fl.git_config)) (setup_extra_git_configs fl.git_config)
    when (not (is_empty fl.http_bind)) start_server
