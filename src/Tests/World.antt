-- ===== src/Tests/World.antt =====
-- Flags, and two worlds: one in which every command succeeds, and one in which every call fails.
use git_sync.Common.{
  true, false, none, some, List, [], ◌∷◌, if◌then◌else◌, pos, Text, codes, equal, refl,
}
use git_sync.Flags.{Flags, submodules_recursive}
use git_sync.Os.{run, stat, eval_symlinks, Failure, Reply, Env, Machine}
use git_sync.Path.Rel.{IsName}
use git_sync.Sync.Whole.{PrintsHashes}
use git_sync.Common.{inl, trim, split}

abbrev pub flags : Flags
flags = record {
  ver = false;
  repo = codes "https://x/y";
  branch = codes "main";
  rev = codes "HEAD";
  depth = pos 0;
  submodules = submodules_recursive;
  root = codes "/git";
  dest = codes "y";
  error_file = [];
  wait = pos 1000000;
  sync_timeout = pos 120;
  one_time = false;
  max_sync_failures = pos 1;
  chmod = pos 0;
  sync_hook_command = [];
  sparse_checkout_file = [];
  webhook_url = codes "http://h";
  webhook_method = codes "POST";
  webhook_status_success = pos 200;
  webhook_timeout = pos 1000000000;
  webhook_backoff = pos 3000000000;
  username = [];
  password = [];
  password_file = [];
  ssh = false;
  ssh_key_file = [];
  ssh_known_hosts = true;
  ssh_known_hosts_file = [];
  add_user = false;
  cookie_file = false;
  askpass_url = [];
  git_cmd = codes "git";
  git_config = [];
  http_bind = [];
  http_metrics = true;
  http_pprof = false;
}

abbrev pub done : Text → Reply
done output = record { output = output; stderr = []; status = 200; failure = none; expired = false }

abbrev pub denied : Failure
denied = record { message = codes "denied"; not_exist = false }

abbrev pub failed : Reply
failed = record { output = []; stderr = []; status = 500; failure = some denied; expired = false }

abbrev pub local_hash : Text
local_hash = codes "1f"

abbrev pub remote_hash : Text
remote_hash = codes "2e"

abbrev of_git : Text → List Text → Reply
of_git a rest =
    if equal a (codes "rev-parse")
    then done (codes "1f\n")
    else if equal a (codes "ls-remote")
    then done (codes "2e\trefs/heads/main\n")
    else if equal a (codes "cat-file")
    then elim rest [ _ ∷ [] ∷ _ ↦ failed | _ ↦ done (codes "commit\n") ]
    else done []

abbrev pub healthy : Env
healthy h (run cwd stdin command (a ∷ rest)) = of_git a rest
healthy h (eval_symlinks path) = done (codes "/git/1f")
healthy h _ = done []

abbrev pub broken : Env
broken h c = failed

abbrev pub start : Machine
start = record {
  history = [];
  repo_ready = false;
  askpass_success = 0;
  askpass_error = 0;
  sync_success = 0;
  sync_error = 0;
  sync_noop = 0;
  sent = [];
}

pub local_hash-IsName : IsName local_hash
unfolding equal
local_hash-IsName = record {
  not_empty = refl;
  no_slash = (refl, (refl, tt));
  not_here = refl;
  not_up = refl;
}

pub remote_hash-IsName : IsName remote_hash
unfolding equal
remote_hash-IsName = record {
  not_empty = refl;
  no_slash = (refl, (refl, tt));
  not_here = refl;
  not_up = refl;
}

pub healthy-PrintsHashes : PrintsHashes healthy flags flags.branch flags.rev
unfolding equal trim split
healthy-PrintsHashes = record {
  local = λ h cwd _. local_hash-IsName;
  remote = λ h cwd _. inl remote_hash-IsName;
  no_empty = λ h cwd. refl;
}

abbrev pub missing : Failure
missing = record { message = codes "no such file"; not_exist = true }

-- The world before the first clone.
abbrev pub empty : Env
empty h (stat path) = record {
  output = [];
  stderr = [];
  status = 0;
  failure = some missing;
  expired = false;
}
empty h c = healthy h c
