-- ===== src/Command.antt =====
-- `cmdForLog`, `runCommand` and `runCommandWithStdin` of cmd/git-sync/main.go.
use git_sync.Common.{
  none, some, List, [], ◌∷◌, ◌++◌, if◌then◌else◌, Text, codes, quote, contains_any, join, false,
}
use git_sync.Os.{Env, Reply, Failure, Result, ok, err, Io, run, perform}

abbrev quote_if_spaced : Text → Text
quote_if_spaced s = if contains_any s (codes " \t\n") then quote s else s

quote_args : List Text → List Text
quote_args [] = []
quote_args (s ∷ args) = quote_if_spaced s ∷ quote_args args

unfoldable pub cmd_for_log : Text → List Text → Text
unfolding quote_args
cmd_for_log command args =
    quote_if_spaced command ++ (codes " " ++ join (codes " ") (quote_args args))

-- `fmt.Errorf("Run(%s): %w: { stdout: %q, stderr: %q }", …)`; `os.IsNotExist` does not look into it.
unfoldable pub run_failure : Text → Text → Reply → Failure
run_failure cmd_str cause r = record {
  message =
      codes "Run("
      ++ (cmd_str
          ++ (codes "): "
              ++ (cause
                  ++ (codes ": { stdout: "
                      ++ (quote r.output
                          ++ (codes ", stderr: " ++ (quote r.stderr ++ codes " }")))))));
  not_exist = false;
}

abbrev deadline_exceeded : Text
deadline_exceeded = codes "context deadline exceeded"

-- An expired deadline comes before the command's own error.
unfoldable pub run_result : Text → Reply → Result Text
unfolding run_failure
run_result cmd_str r =
    if r.expired
    then err (run_failure cmd_str deadline_exceeded r)
    else elim r.failure [ none ↦ ok r.output | some e ↦ err (run_failure cmd_str e.message r) ]

module _ (env : Env) where
  unfoldable pub run_command_with_stdin : Text → Text → Text → List Text → Io Text
  run_command_with_stdin cwd stdin command args m =
      let (r, m') = perform env (run cwd stdin command args) m in
      (run_result (cmd_for_log command args) r, m')

  unfoldable pub run_command : Text → Text → List Text → Io Text
  run_command cwd command args = run_command_with_stdin cwd [] command args
