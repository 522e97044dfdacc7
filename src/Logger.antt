-- ===== src/Logger.antt =====
-- `customLogger` of cmd/git-sync/main.go: the error file. What the embedded logger prints is left
-- out. `json.Marshal` gives no error on texts and numbers, so its error branch has no counterpart.
pub mod Json
pub mod Total
pub mod Complete
pub use Json.{Value, text, int}
use git_sync.Common.{Bool, true, false, List, [], ◌∷◌, if◌then◌else◌, itoa, Text, codes, is_empty}
use git_sync.Path.{join_path}
use git_sync.Flags.{Flags}
use git_sync.Os.{
  Env, Machine, Result, ok, err, Failure, Io, ◌>>=◌, ◌>>◌, pure, attempt, defer, os, stat, mkdir,
  temp_file, write_temp, close_file, rename, chmod_file, remove_file,
}
use git_sync.Logger.Json.{Payload, set_arg, marshal}

-- The keys and values, two by two; `<no-value>` stands in for a last value that is missing. A key
-- that is no text is printed.
unfoldable pub key_text : Value → Text
key_text (text k) = k
key_text (int n) = itoa n

unfoldable pub args_onto : List (Text × Value) → List Value → List (Text × Value)
args_onto args [] = args
args_onto args (k ∷ []) = set_arg (key_text k) (text (codes "<no-value>")) args
args_onto args (k ∷ v ∷ rest) = args_onto (set_arg (key_text k) v args) rest

-- An error that is logged and goes no further.
unfoldable pub ignore {ℓ} : {A : Type ℓ} → Io A → Io (Unit {0})
ignore x m = (ok tt, (x m).1)

module _ (env : Env) (fl : Flags) where
  -- `if _, err := os.Stat(path); os.IsNotExist(err) { os.Mkdir(path, 0755) }`
  unfoldable pub absent_then_mkdir : Text → Result Text → Io (Unit {0})
  absent_then_mkdir path (ok _) = pure tt
  absent_then_mkdir path (err e) =
      if e.not_exist then os env (mkdir path 0o755) >> pure tt else pure tt

  unfoldable pub mkdir_if_absent : Text → Io (Unit {0})
  mkdir_if_absent path = attempt (os env (stat path)) >>= absent_then_mkdir path

  -- Behind the successful creation of the temporary file, which is closed last.
  unfoldable pub fill_and_rename : Text → Text → Io Text
  fill_and_rename content tmp = defer (os env (close_file tmp)) do
    os env (write_temp tmp content)
    os env (rename tmp (join_path fl.root fl.error_file))
    os env (chmod_file (join_path fl.root fl.error_file) 0o644)

  unfoldable pub write_content : Text → Io (Unit {0})
  write_content content = ignore do
    mkdir_if_absent fl.root
    tmp ← os env (temp_file fl.root (codes "tmp-err-"))
    fill_and_rename content tmp

  -- `Error(err, msg, kvList...)`
  unfoldable pub log_error : Failure → Text → List Value → Io (Unit {0})
  log_error e msg kv_list =
      if is_empty fl.error_file
      then pure tt
      else write_content
          (marshal (record { msg = msg; err = e.message; args = args_onto [] kv_list }))

  unfoldable pub export_error : Text → Io (Unit {0})
  export_error content = if is_empty fl.error_file then pure tt else write_content content

  -- A missing file and an error that is only logged end alike.
  unfoldable pub delete_error_file : Io (Unit {0})
  delete_error_file =
      if is_empty fl.error_file
      then pure tt
      else ignore (os env (remove_file (join_path fl.root fl.error_file)))
