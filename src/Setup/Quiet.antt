-- ===== src/Setup/Quiet.antt =====
-- The start makes no call that the view of the disk shows.
use git_sync.Common.{◌≡◌, refl, Bool, true, false, not, List, [], ◌∷◌, Text, codes, is_empty}
use git_sync.Flags.{Flags}
use git_sync.Os.{
  listen, stat, read_file, set_env, get_env, get_wd, get_uid, get_gid, open_append, write_opened,
  close_file, Call, Env, Machine, Io,
}
use git_sync.Os.Frame.{
  Keeps, Keeps-pure, Keeps-fail, Keeps-bind, Keeps-or_else, Keeps-defer, Keeps-if,
}
use git_sync.Auth.Quiet.{Keeps-call_git_askpass_url, Keeps-setup_git_auth, Keeps-wrap}
use git_sync.Sync.{count_askpass}
use git_sync.GitConfig
use git_sync.GitConfig.{KeyVal, ParseError, parse_git_configs}
use git_sync.Logger.{export_error}
use git_sync.Disk.{other, action}
use git_sync.Disk.Quiet.{
  IsQuietFrame, Keeps-os, Keeps-run_command, Keeps-log_error, Keeps-write_content,
}
use git_sync.Setup.{
  cookie_path, passwd, handle_error, ask, ask_number, home_or_cwd, add_user, known_hosts, or_handle,
  when, setup_git_ssh, setup_git_cookie_file, set_configs, set_parsed, setup_extra_git_configs,
  find_password, initial_askpass, start_server, set_up,
}

module _ {env : Env} {R : Machine → Machine → Type 0} (q : IsQuietFrame env R) (fl : Flags)
    (error_text : ParseError → Text) where
  Keeps-export_error : (message : Text) → Keeps R (export_error env fl message)
  unfolding export_error
  Keeps-export_error message =
      Keeps-if q.frame (is_empty fl.error_file) (Keeps-pure q.frame tt)
        (Keeps-write_content q fl message)

  pub Keeps-handle_error {ℓ} :
      {A : Type ℓ} (message : Text) → Keeps R (handle_error env fl error_text {A = A} message)
  unfolding handle_error
  Keeps-handle_error message =
      Keeps-bind q.frame (Keeps-export_error message) λ _. Keeps-fail q.frame _

  Keeps-or_handle :
      (message : Text) {x : Io (Unit {0})}
      → Keeps R x
      → Keeps R (or_handle env fl error_text message x)
  Keeps-or_handle message hx = Keeps-or_else q.frame hx λ e. Keeps-handle_error _

  Keeps-ask : (c : Call) → action c ≡ other → Keeps R (ask env fl error_text c)
  unfolding ask
  Keeps-ask c h = record { keeps = λ m. q.call c m h }

  Keeps-ask_number : (c : Call) → action c ≡ other → Keeps R (ask_number env fl error_text c)
  unfolding ask_number
  Keeps-ask_number c h = record { keeps = λ m. q.call c m h }

  Keeps-home_or_cwd : (home : Text) → Keeps R (home_or_cwd env fl error_text home)
  unfolding home_or_cwd action
  Keeps-home_or_cwd home =
      Keeps-if q.frame (is_empty home)
        (Keeps-wrap q fl (codes "can't get working directory and $HOME is not set")
          (Keeps-os q get_wd refl))
        (Keeps-pure q.frame home)

  Keeps-add_user : Keeps R (add_user env fl error_text)
  unfolding add_user action
  Keeps-add_user = Keeps-bind q.frame (Keeps-ask (get_env _) refl) λ env_home.
      Keeps-bind q.frame (Keeps-home_or_cwd env_home) λ home.
        Keeps-bind q.frame (Keeps-os q (open_append passwd) refl) λ _.
          Keeps-bind q.frame
            (Keeps-defer q.frame (Keeps-os q (close_file passwd) refl) (
              Keeps-bind q.frame (Keeps-ask_number get_uid refl) λ uid.
                Keeps-bind q.frame (Keeps-ask_number get_gid refl)
                  λ gid. Keeps-os q (write_opened passwd _) refl))
            λ _. Keeps-pure q.frame tt

  Keeps-known_hosts : (b : Bool) → Keeps R (known_hosts env fl error_text b)
  unfolding known_hosts action
  Keeps-known_hosts true =
      Keeps-bind q.frame
        (Keeps-wrap q fl (codes "can't access SSH known_hosts") (Keeps-os q (stat _) refl))
        λ _. Keeps-pure q.frame _
  Keeps-known_hosts false = Keeps-pure q.frame _

  Keeps-setup_git_ssh : (b : Bool) → Keeps R (setup_git_ssh env fl error_text b)
  unfolding setup_git_ssh action
  Keeps-setup_git_ssh b =
      Keeps-bind q.frame (Keeps-wrap q fl (codes "can't access SSH key") (Keeps-os q (stat _) refl))
        λ _. Keeps-bind q.frame (Keeps-known_hosts b) λ command.
          Keeps-bind q.frame
            (Keeps-wrap q fl (codes "can't set $GIT_SSH_COMMAND")
              (Keeps-os q (set_env _ command) refl))
            λ _. Keeps-pure q.frame tt

  Keeps-setup_git_cookie_file : Keeps R (setup_git_cookie_file env fl error_text)
  unfolding setup_git_cookie_file action
  Keeps-setup_git_cookie_file =
      Keeps-bind q.frame
        (Keeps-wrap q fl (codes "can't access git cookiefile") (Keeps-os q (stat cookie_path) refl))
        λ _.
          Keeps-bind q.frame
            (Keeps-wrap q fl (codes "can't configure git cookiefile")
              (Keeps-run_command q [] fl.git_cmd _ refl))
            λ _. Keeps-pure q.frame tt

  Keeps-set_configs : (kvs : List KeyVal) → Keeps R (set_configs env fl error_text kvs)
  unfolding set_configs action
  Keeps-set_configs [] = Keeps-pure q.frame tt
  Keeps-set_configs (kv ∷ kvs) =
      Keeps-bind q.frame
        (Keeps-or_else q.frame (Keeps-run_command q [] fl.git_cmd _ refl) λ e. Keeps-fail q.frame _)
        λ _. Keeps-set_configs kvs

  Keeps-set_parsed : (r : GitConfig.Result (List KeyVal)) → Keeps R (set_parsed env fl error_text r)
  unfolding set_parsed
  Keeps-set_parsed (GitConfig.ok kvs) = Keeps-set_configs kvs
  Keeps-set_parsed (GitConfig.err e) = Keeps-fail q.frame _

  Keeps-find_password : Keeps R (find_password env fl error_text)
  unfolding find_password action
  Keeps-find_password =
      Keeps-if q.frame (is_empty fl.password_file) (Keeps-pure q.frame fl.password) (
        Keeps-or_else q.frame (Keeps-os q (read_file fl.password_file) refl)
          λ e. Keeps-bind q.frame (Keeps-log_error q fl e _ _) λ _. Keeps-fail q.frame e)

  module _ (count : (b : Bool) (m : Machine) → R m (count_askpass b m).1) where
    Keeps-initial_askpass : Keeps R (initial_askpass env fl error_text)
    unfolding initial_askpass
    Keeps-initial_askpass =
        Keeps-bind q.frame
          (Keeps-or_else q.frame (Keeps-call_git_askpass_url q fl fl.askpass_url)
            λ e. Keeps-bind q.frame (record { keeps = count false }) λ _. Keeps-handle_error _)
          λ _. record { keeps = count true }

    Keeps-when : (b : Bool) {x : Io (Unit {0})} → Keeps R x → Keeps R (when env fl error_text b x)
    Keeps-when b hx = Keeps-if q.frame b hx (Keeps-pure q.frame tt)

    Keeps-start_server : Keeps R (start_server env fl error_text)
    unfolding start_server action
    Keeps-start_server =
        Keeps-or_handle (codes "ERROR: unable to bind HTTP endpoint: ")
          (Keeps-bind q.frame (Keeps-os q (listen fl.http_bind) refl) λ _. Keeps-pure q.frame tt)

    pub Keeps-set_up : Keeps R (set_up env fl error_text)
    unfolding set_up setup_extra_git_configs
    Keeps-set_up =
        Keeps-bind q.frame
          (Keeps-when fl.add_user
            (Keeps-or_handle (codes "ERROR: can't write to /etc/passwd: ") Keeps-add_user))
          λ _.
            Keeps-bind q.frame
              (Keeps-when (not (is_empty fl.username)) (
                Keeps-bind q.frame Keeps-find_password λ password.
                  Keeps-or_handle (codes "ERROR: can't create .netrc file: ")
                    (Keeps-setup_git_auth q fl fl.username password fl.repo)))
              λ _.
                Keeps-bind q.frame
                  (Keeps-when fl.ssh (
                    Keeps-or_handle (codes "ERROR: can't configure SSH: ")
                      (Keeps-setup_git_ssh fl.ssh_known_hosts)))
                  λ _.
                    Keeps-bind q.frame
                      (Keeps-when fl.cookie_file (
                        Keeps-or_handle (codes "ERROR: can't set git cookie file: ")
                          Keeps-setup_git_cookie_file))
                      λ _.
                        Keeps-bind q.frame
                          (Keeps-when (not (is_empty fl.askpass_url)) Keeps-initial_askpass)
                          λ _.
                            Keeps-bind q.frame
                              (Keeps-when (not (is_empty fl.git_config))
                                (Keeps-set_parsed (parse_git_configs fl.git_config)))
                              λ _. Keeps-when (not (is_empty fl.http_bind)) Keeps-start_server
