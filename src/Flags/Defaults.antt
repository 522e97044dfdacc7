-- ===== src/Flags/Defaults.antt =====
-- The values that the flags of cmd/git-sync/main.go have before the command line is read: `envString`
-- and its like, and the defaults in the `var` declarations. `os.Getenv` is a function from names to
-- values, and the readers of a `float64` and of a duration, of Go's library, are parameters. Warnings
-- are left out.
pub mod RoundTrip
pub mod Bare
use git_sync.Common.{
  ℕ, ◌*◌, Bool, true, false, Option, none, some, [], ◌++◌, if◌then◌else◌, ℤ, pos, Text, codes,
  is_empty,
}
use git_sync.Flags.{Flags}
use git_sync.Flags.Number.{parse_bool, parse_int}

abbrev pub or_default {ℓ} : {A : Type ℓ} → Option A → A → A
or_default none d = d
or_default (some a) d = a

-- 1s, as a `time.Duration`
abbrev pub time_second : ℕ
time_second = 1000000000

module _ (getenv : Text → Text) where
  unfoldable pub env_string : Text → Text → Text
  env_string key def = let env = getenv key in if is_empty env then def else env

  unfoldable pub env_bool : Text → Bool → Bool
  env_bool key def =
      let env = getenv key in if is_empty env then def else or_default (parse_bool env) def

  unfoldable pub env_int : Text → ℤ → ℤ
  env_int key def =
      let env = getenv key in if is_empty env then def else or_default (parse_int env) def

  module _ (parse_float parse_duration : Text → Option ℤ) where
    -- In millionths.
    unfoldable pub env_float : Text → ℤ → ℤ
    env_float key def =
        let env = getenv key in if is_empty env then def else or_default (parse_float env) def

    -- In nanoseconds.
    unfoldable pub env_duration : Text → ℤ → ℤ
    env_duration key def =
        let env = getenv key in if is_empty env then def else or_default (parse_duration env) def

    unfoldable pub default_flags : Flags
    unfolding env_string env_bool env_int env_float env_duration
    default_flags = record {
      ver = false;
      repo = env_string (codes "GIT_SYNC_REPO") [];
      branch = env_string (codes "GIT_SYNC_BRANCH") (codes "master");
      rev = env_string (codes "GIT_SYNC_REV") (codes "HEAD");
      depth = env_int (codes "GIT_SYNC_DEPTH") (pos 0);
      submodules = env_string (codes "GIT_SYNC_SUBMODULES") (codes "recursive");
      root = env_string (codes "GIT_SYNC_ROOT") (env_string (codes "HOME") [] ++ codes "/git");
      dest = env_string (codes "GIT_SYNC_DEST") [];
      error_file = env_string (codes "GIT_SYNC_ERROR_FILE") [];
      wait = env_float (codes "GIT_SYNC_WAIT") (pos 1000000);
      sync_timeout = env_int (codes "GIT_SYNC_TIMEOUT") (pos 120);
      one_time = env_bool (codes "GIT_SYNC_ONE_TIME") false;
      max_sync_failures = env_int (codes "GIT_SYNC_MAX_SYNC_FAILURES") (pos 0);
      chmod = env_int (codes "GIT_SYNC_PERMISSIONS") (pos 0);
      sync_hook_command = env_string (codes "GIT_SYNC_HOOK_COMMAND") [];
      sparse_checkout_file = env_string (codes "GIT_SYNC_SPARSE_CHECKOUT_FILE") [];
      webhook_url = env_string (codes "GIT_SYNC_WEBHOOK_URL") [];
      webhook_method = env_string (codes "GIT_SYNC_WEBHOOK_METHOD") (codes "POST");
      webhook_status_success = env_int (codes "GIT_SYNC_WEBHOOK_SUCCESS_STATUS") (pos 200);
      webhook_timeout = env_duration (codes "GIT_SYNC_WEBHOOK_TIMEOUT") (pos time_second);
      webhook_backoff = env_duration (codes "GIT_SYNC_WEBHOOK_BACKOFF") (pos (time_second * 3));
      username = env_string (codes "GIT_SYNC_USERNAME") [];
      password = env_string (codes "GIT_SYNC_PASSWORD") [];
      password_file = env_string (codes "GIT_SYNC_PASSWORD_FILE") [];
      ssh = env_bool (codes "GIT_SYNC_SSH") false;
      ssh_key_file = env_string (codes "GIT_SSH_KEY_FILE") (codes "/etc/git-secret/ssh");
      ssh_known_hosts = env_bool (codes "GIT_KNOWN_HOSTS") true;
      ssh_known_hosts_file =
          env_string (codes "GIT_SSH_KNOWN_HOSTS_FILE") (codes "/etc/git-secret/known_hosts");
      add_user = env_bool (codes "GIT_SYNC_ADD_USER") false;
      cookie_file = env_bool (codes "GIT_COOKIE_FILE") false;
      askpass_url = env_string (codes "GIT_ASKPASS_URL") [];
      git_cmd = env_string (codes "GIT_SYNC_GIT") (codes "git");
      git_config = env_string (codes "GIT_SYNC_GIT_CONFIG") [];
      http_bind = env_string (codes "GIT_SYNC_HTTP_BIND") [];
      http_metrics = env_bool (codes "GIT_SYNC_HTTP_METRICS") true;
      http_pprof = env_bool (codes "GIT_SYNC_HTTP_PPROF") false;
    }
