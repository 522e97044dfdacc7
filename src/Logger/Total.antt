-- ===== src/Logger/Total.antt =====
-- The error file never makes its caller fail.
use git_sync.Common.{◌≡◌, arith, List, Text}
use git_sync.Flags.{Flags}
use git_sync.Os.{Env, Machine, Failure, ok, pure}
use git_sync.Logger.{Value, ignore, write_content, log_error, delete_error_file}

module _ (env : Env) (fl : Flags) where
  pub log_error-ok :
      (e : Failure) (msg : Text) (kvs : List Value) (m : Machine)
      → log_error env fl e msg kvs m ≡ (ok tt, (log_error env fl e msg kvs m).1)
  unfolding log_error write_content ignore pure
  log_error-ok e msg kvs m = ground arith

  pub delete_error_file-ok :
      (m : Machine) → delete_error_file env fl m ≡ (ok tt, (delete_error_file env fl m).1)
  unfolding delete_error_file ignore pure
  delete_error_file-ok m = ground arith
