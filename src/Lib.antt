-- ===== src/Lib.antt =====
-- Verification of git-sync, the sidecar that keeps a directory on a commit of a remote repository.
--
-- The program (cmd/git-sync/main.go) checks its flags, sets up credentials and then loops: it asks
-- git for the local and the remote hash, builds a worktree for a new hash beside the old one, flips
-- a symlink to it, runs a hook, removes the old worktree, counts the outcome, hands the hash to the
-- webhook (cmd/git-sync/webhook.go) and sleeps. As process 1 it first starts itself again as a
-- child, and reaps (pkg/pid1/pid1.go).
--
-- The world. All that the program asks of the operating system, of git and of HTTP is a `Call`
-- (Os.antt), and a world (`Env`) is any function from the calls made so far, with their replies, to
-- the reply to the next one. So a theorem about every world is one about every file system, every
-- git and every moment at which a deadline passes. The program's memory is the record `Machine`,
-- with the calls so far as its history. A Go function that returns an error is an `Io`, and
-- `if err != nil { return … }` is its bind.
--
-- The parts.
-- - Flags.antt: the flags. Flags/Defaults.antt: their defaults, by `envString` and its like.
--   Flags/Parse.antt: their names, and `flag.Parse` of Go's library; Flags/Number.antt: the numbers
--   in both. Times are whole numbers: of `--wait` in millionths of a second; how Go reads a float or
--   a duration is a parameter, and so are the flags of glog.
-- - Main/Validate.antt: the checks on the flags in `main`; whether a command can be found is a
--   parameter.
-- - Logger.antt, Logger/Json.antt: `customLogger`, its error file and the JSON in it.
-- - Command.antt, Git.antt: `cmdForLog`, `runCommand`, `runCommandWithStdin`; `localHashForRev`,
--   `remoteHashForRef`, `revIsHash`, `getRevs`.
-- - Auth.antt: `setupGitAuth` and `callGitAskPassURL`.
-- - Path.antt: `filepath.Clean`, `Join` and `Rel` of Go's library, as the program uses them.
-- - Worktree.antt, Sync.antt: `cleanupWorkTree`, `updateSymlink`, `addWorktreeAndSwap`, `cloneRepo`,
--   `syncRepo`. A long function is cut into pieces, each from a line of it to its end.
-- - Main.antt: the loop of `main`; its ends (`os.Exit`, `sleepForever`) are values.
-- - Setup.antt: `addUser`, `setupGitSSH`, `setupGitCookieFile`, `setupExtraGitConfigs`, `handleError`
--   and the part of `main` that calls them. Program.antt: `main` from its checks to its loop, and
--   the handler of the readiness endpoint. Program/Entry.antt: what comes before the checks.
--   Program/Notify.antt: the loop and the goroutine of the webhook, which `main` starts, in turns.
-- - Http.antt: the routes of the HTTP endpoint, and how `http.ServeMux` of Go's library chooses one.
-- - GitConfig.antt: `parseGitConfigs` and its helpers. The channel of runes is the list of those left.
-- - Webhook.antt: the mailbox of `Webhook`, and `run` as a step relation whose steps are interleaved
--   with those of `Send` in any order: the hash is set in one and the channel written to in another;
--   `Do` with the client as a parameter.
-- - Pid1.antt: `ReRun`, `runInit` and `sigchld`, on any sequence of signals and results of `wait4`.
--
-- How the proofs go. Disk.antt reads an abstract view of the disk off a history: where the temporary
-- symlink points, and which commit each directory was reset to; Disk/Link.antt where the published
-- symlink points (Disk/Points.antt: which calls leave it there), and Logger/Complete.antt how the error
-- file comes into its place.
-- Os/Frame.antt has rules for relations that a function keeps, Os/Hoare.antt for conditions before and
-- after it, and the modules below Disk, Worktree, Sync and Main carry these through the program. Tests
-- has runs on concrete inputs.
--
-- Bounds. `parse_git_configs` runs on fuel, one more than the runes of the flag: every round of its
-- loop takes one at least. `main_loop` makes a given number of iterations of a loop that has no end.
-- The sender of the webhook is bounded by nothing: its steps are taken one by one.
--
-- What is assumed is said where it is used: `PrintsHashes` (Sync/Whole.antt) is what git documents of
-- `rev-parse`, `ls-remote` and `cat-file`, and `PointsElsewhere` (Worktree/Publish.antt) says that the
-- symlink does not point to the worktree that is built, before it is replaced; Worktree/Leaves.antt has
-- what happens if it does. The view of the disk takes it that `ln -snf`, `mv -T`, `git reset --hard`, `os.Rename` and
-- `os.RemoveAll` do what they document when they succeed, and that no other process changes the
-- directories.
--
-- Not modelled: what the handlers of Prometheus and of pprof answer, the declaration of the metrics
-- and the durations in them, the log lines and warnings on the standard error, the text of the usage:
-- these are calls of libraries, and no state of the program depends on them. Nor vendored packages,
-- and the constant for the version, which the build sets.
pub mod Common
pub mod GitConfig
pub mod Path
pub mod Flags
pub mod Os
pub mod Logger
pub mod Command
pub mod Git
pub mod Auth
pub mod Worktree
pub mod Sync
pub mod Disk
pub mod Pid1
pub mod Webhook
pub mod Main
pub mod Tests
pub mod Setup
pub mod Program
pub mod Http
