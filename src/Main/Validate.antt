-- ===== src/Main/Validate.antt =====
-- The checks on the flags at the start of `main` in cmd/git-sync/main.go, from `--version` on, in
-- their order.
pub mod Guards
pub mod Ranges
pub mod Valid
pub mod Dest
use git_sync.Common.{
  Bool, true, false, not, ◌&&◌, ◌||◌, Option, none, some, List, [], ◌∷◌, ◌++◌, if◌then◌else◌, ℤ,
  pos, negsuc, ltb_ℤ, Text, codes, quote, equal, is_empty, contains, trim, split,
}
use git_sync.Flags.{Flags, submodules_recursive, submodules_shallow, submodules_off}

-- A condition under which the program ends with `handleError(print_usage, message)`.
pub record Guard : Type 0 where
  pub bad : Bool
  pub print_usage : Bool
  pub message : Text

-- What the checks end in: the version is printed, an error, or the flags go on.
pub data Check : Type 0 where
  shows_version : Check
  refused : Bool → Text → Check
  accepted : Flags → Check

abbrev guard : Bool → Bool → Text → Guard
guard bad print_usage message = record {
  bad = bad;
  print_usage = print_usage;
  message = codes "ERROR: " ++ message;
}

abbrev pub last_of : Text → List Text → Text
last_of s [] = s
last_of s (t ∷ ts) = last_of t ts

-- The last element of the repository's path is the default of `--dest`.
unfoldable pub fill_dest : Flags → Flags
fill_dest fl = record fl {
  dest = if is_empty fl.dest then last_of [] (split b'/' (trim b'/' fl.repo)) else fl.dest;
}

abbrev pub second : ℤ
second = pos 1000000000

abbrev pub is_submodules_mode : Text → Bool
is_submodules_mode s =
    equal s submodules_recursive || equal s submodules_shallow || equal s submodules_off

-- The first condition that holds ends the program.
unfoldable pub go_through : List Guard → Check → Check
go_through [] next = next
go_through (g ∷ gs) next = if g.bad then refused g.print_usage g.message else go_through gs next

-- `exec.LookPath`: the text of its error, if it has one.
module _ (look_path : Text → Option Text) where
  abbrev pub is_missing : Text → Bool
  is_missing command = elim (look_path command) [ none ↦ false | some _ ↦ true ]

  abbrev missing_text : Text → Text
  missing_text command = elim (look_path command) [ none ↦ [] | some e ↦ e ]

  -- In front of the default of `--dest`.
  unfoldable pub early_guards : Flags → List Guard
  early_guards fl =
      guard (is_empty fl.repo) true (codes "--repo must be specified")
      ∷ guard (ltb_ℤ fl.depth (pos 0)) true (codes "--depth must be greater than or equal to 0")
      ∷ guard (not (is_submodules_mode fl.submodules)) true (
          codes "--submodules must be one of "
          ++ (quote submodules_recursive
              ++ (codes ", "
                  ++ (quote submodules_shallow ++ (codes ", or " ++ quote submodules_off)))))
      ∷ guard (is_empty fl.root) true (codes "--root must be specified")
      ∷ []

  abbrev ssh_guards : Flags → List Guard
  ssh_guards fl =
      guard (fl.ssh && not (is_empty fl.username)) false
        (codes "only one of --ssh and --username may be specified")
      ∷ guard (fl.ssh && not (is_empty fl.password)) false
          (codes "only one of --ssh and --password may be specified")
      ∷ guard (fl.ssh && not (is_empty fl.password_file)) false
          (codes "only one of --ssh and --password-file may be specified")
      ∷ guard (fl.ssh && not (is_empty fl.askpass_url)) false
          (codes "only one of --ssh and --askpass-url may be specified")
      ∷ guard (fl.ssh && fl.cookie_file) false
          (codes "only one of --ssh and --cookie-file may be specified")
      ∷ guard (fl.ssh && is_empty fl.ssh_key_file) true
          (codes "--ssh-key-file must be specified when --ssh is specified")
      ∷ guard (fl.ssh && (fl.ssh_known_hosts && is_empty fl.ssh_known_hosts_file)) true
          (codes "--ssh-known-hosts-file must be specified when --ssh-known-hosts is specified")
      ∷ []

  abbrev webhook_guards : Flags → List Guard
  webhook_guards fl =
      guard (not (is_empty fl.webhook_url) && ltb_ℤ fl.webhook_status_success (negsuc 0)) true
        (codes "--webhook-success-status must be a valid HTTP code or -1")
      ∷ guard (not (is_empty fl.webhook_url) && ltb_ℤ fl.webhook_timeout second) true
          (codes "--webhook-timeout must be at least 1s")
      ∷ guard (not (is_empty fl.webhook_url) && ltb_ℤ fl.webhook_backoff second) true
          (codes "--webhook-backoff must be at least 1s")
      ∷ []

  -- Behind it.
  unfoldable pub late_guards : Flags → List Guard
  late_guards fl =
      guard (contains fl.dest (codes "/")) true (codes "--dest must be a leaf name, not a path")
      ∷ guard (ltb_ℤ fl.wait (pos 0)) true (codes "--wait must be greater than or equal to 0")
      ∷ guard (ltb_ℤ fl.sync_timeout (pos 0)) true (codes "--timeout must be greater than 0")
      ∷ (webhook_guards fl
          ++ (guard (is_missing fl.git_cmd) false (
                codes "git executable "
                ++ (quote fl.git_cmd ++ (codes " not found: " ++ missing_text fl.git_cmd)))
              ∷ guard (not (is_empty fl.password) && not (is_empty fl.password_file)) false
                  (codes "only one of --password and --password-file may be specified")
              ∷ guard
                  (not (is_empty fl.username)
                    && (is_empty fl.password && is_empty fl.password_file))
                  true
                  (codes "--password or --password-file must be set when --username is specified")
              ∷ ssh_guards fl))

  unfoldable pub validate : Flags → Check
  validate fl =
      if fl.ver
      then shows_version
      else go_through (early_guards fl)
          (go_through (late_guards (fill_dest fl)) (accepted (fill_dest fl)))
