-- ===== src/Flags.antt =====
-- The command line flags of cmd/git-sync/main.go. Their defaults come from the environment.
pub mod Number
pub mod Defaults
pub mod Parse
use git_sync.Common.{Bool, ℤ, Text, codes}

pub record Flags : Type 0 where
  pub ver : Bool
  pub repo : Text
  pub branch : Text
  pub rev : Text
  pub depth : ℤ
  pub submodules : Text
  pub root : Text
  pub dest : Text
  pub error_file : Text
  pub wait : ℤ  -- millionths of a second, for a float64 of seconds
  pub sync_timeout : ℤ
  pub one_time : Bool
  pub max_sync_failures : ℤ
  pub chmod : ℤ
  pub sync_hook_command : Text
  pub sparse_checkout_file : Text
  pub webhook_url : Text
  pub webhook_method : Text
  pub webhook_status_success : ℤ
  pub webhook_timeout : ℤ  -- nanoseconds, as a time.Duration
  pub webhook_backoff : ℤ  -- nanoseconds
  pub username : Text
  pub password : Text
  pub password_file : Text
  pub ssh : Bool
  pub ssh_key_file : Text
  pub ssh_known_hosts : Bool
  pub ssh_known_hosts_file : Text
  pub add_user : Bool
  pub cookie_file : Bool
  pub askpass_url : Text
  pub git_cmd : Text
  pub git_config : Text
  pub http_bind : Text
  pub http_metrics : Bool
  pub http_pprof : Bool

abbrev pub submodules_recursive : Text
submodules_recursive = codes "recursive"

abbrev pub submodules_shallow : Text
submodules_shallow = codes "shallow"

abbrev pub submodules_off : Text
submodules_off = codes "off"
