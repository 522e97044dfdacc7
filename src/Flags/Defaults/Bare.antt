-- ===== src/Flags/Defaults/Bare.antt =====
-- A start with nothing but a repository: no argument, and no variable of the environment but
-- `GIT_SYNC_REPO` and `HOME`.
use git_sync.Common.{
  ◌≡◌, refl, true, false, Option, [], ◌++◌, ◌*◌, ℤ, pos, Text, codes, equal, is_empty,
}
use git_sync.Flags.{Flags}
use git_sync.Flags.Defaults.{default_flags, time_second}
use git_sync.Flags.Defaults.RoundTrip.{without_default}

pub record IsBare (getenv : Text → Text) : Type 0 where
  pub repo : is_empty (getenv (codes "GIT_SYNC_REPO")) ≡ false
  pub unset :
      (key : Text)
      → equal key (codes "GIT_SYNC_REPO") ≡ false
      → equal key (codes "HOME") ≡ false
      → is_empty (getenv key) ≡ true

module _ (getenv : Text → Text) where
  abbrev pub bare_flags : Flags
  bare_flags = record {
    ver = false;
    repo = getenv (codes "GIT_SYNC_REPO");
    branch = (codes "master");
    rev = (codes "HEAD");
    depth = (pos 0);
    submodules = (codes "recursive");
    root = getenv (codes "HOME") ++ codes "/git";
    dest = [];
    error_file = [];
    wait = (pos 1000000);
    sync_timeout = (pos 120);
    one_time = false;
    max_sync_failures = (pos 0);
    chmod = (pos 0);
    sync_hook_command = [];
    sparse_checkout_file = [];
    webhook_url = [];
    webhook_method = (codes "POST");
    webhook_status_success = (pos 200);
    webhook_timeout = (pos time_second);
    webhook_backoff = (pos (time_second * 3));
    username = [];
    password = [];
    password_file = [];
    ssh = false;
    ssh_key_file = (codes "/etc/git-secret/ssh");
    ssh_known_hosts = true;
    ssh_known_hosts_file = (codes "/etc/git-secret/known_hosts");
    add_user = false;
    cookie_file = false;
    askpass_url = [];
    git_cmd = (codes "git");
    git_config = [];
    http_bind = [];
    http_metrics = true;
    http_pprof = false;
  }

  pub default_flags-bare :
      (parse_float parse_duration : Text → Option ℤ)
      → IsBare getenv
      → default_flags getenv parse_float parse_duration ≡ bare_flags
  unfolding default_flags equal
  default_flags-bare parse_float parse_duration b =
      rw
        (
          without_default (getenv (codes "GIT_SYNC_REPO")),
          without_default (getenv (codes "HOME")),
          b.unset (codes "GIT_SYNC_BRANCH") refl refl,
          b.unset (codes "GIT_SYNC_REV") refl refl,
          b.unset (codes "GIT_SYNC_DEPTH") refl refl,
          b.unset (codes "GIT_SYNC_SUBMODULES") refl refl,
          b.unset (codes "GIT_SYNC_ROOT") refl refl,
          b.unset (codes "GIT_SYNC_DEST") refl refl,
          b.unset (codes "GIT_SYNC_ERROR_FILE") refl refl,
          b.unset (codes "GIT_SYNC_WAIT") refl refl,
          b.unset (codes "GIT_SYNC_TIMEOUT") refl refl,
          b.unset (codes "GIT_SYNC_ONE_TIME") refl refl,
          b.unset (codes "GIT_SYNC_MAX_SYNC_FAILURES") refl refl,
          b.unset (codes "GIT_SYNC_PERMISSIONS") refl refl,
          b.unset (codes "GIT_SYNC_HOOK_COMMAND") refl refl,
          b.unset (codes "GIT_SYNC_SPARSE_CHECKOUT_FILE") refl refl,
          b.unset (codes "GIT_SYNC_WEBHOOK_URL") refl refl,
          b.unset (codes "GIT_SYNC_WEBHOOK_METHOD") refl refl,
          b.unset (codes "GIT_SYNC_WEBHOOK_SUCCESS_STATUS") refl refl,
          b.unset (codes "GIT_SYNC_WEBHOOK_TIMEOUT") refl refl,
          b.unset (codes "GIT_SYNC_WEBHOOK_BACKOFF") refl refl,
          b.unset (codes "GIT_SYNC_USERNAME") refl refl,
          b.unset (codes "GIT_SYNC_PASSWORD") refl refl,
          b.unset (codes "GIT_SYNC_PASSWORD_FILE") refl refl,
          b.unset (codes "GIT_SYNC_SSH") refl refl,
          b.unset (codes "GIT_SSH_KEY_FILE") refl refl,
          b.unset (codes "GIT_KNOWN_HOSTS") refl refl,
          b.unset (codes "GIT_SSH_KNOWN_HOSTS_FILE") refl refl,
          b.unset (codes "GIT_SYNC_ADD_USER") refl refl,
          b.unset (codes "GIT_COOKIE_FILE") refl refl,
          b.unset (codes "GIT_ASKPASS_URL") refl refl,
          b.unset (codes "GIT_SYNC_GIT") refl refl,
          b.unset (codes "GIT_SYNC_GIT_CONFIG") refl refl,
          b.unset (codes "GIT_SYNC_HTTP_BIND") refl refl,
          b.unset (codes "GIT_SYNC_HTTP_METRICS") refl refl,
          b.unset (codes "GIT_SYNC_HTTP_PPROF") refl refl,
        )
        refl
