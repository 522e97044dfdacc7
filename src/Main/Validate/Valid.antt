-- ===== src/Main/Validate/Valid.antt =====
-- Which flags pass the checks, in the words of the options and not of the guards.
use git_sync.Common.{
  ◌≡◌, refl, arith, true, false, ◌&&◌, Option, none, some, ◌==◌, negsuc, Text, is_empty, All, ◌⊎◌,
  inl, inr, ◌↔◌, Bool-cases,
}
use git_sync.Flags.{Flags, submodules_recursive, submodules_shallow, submodules_off}
use git_sync.Main.Validate.{accepted, fill_dest, is_missing, validate}
use git_sync.Main.Validate.Ranges.{
  Given, Absent, IsNatural, IsAtLeast, empty-Absent, empty-Given, Absent-empty, Given-empty,
  natural_iff, least_iff, code_iff, leaf_iff, mode_iff,
}
use git_sync.Main.Validate.Guards.{IsUnguarded, validate-IsUnguarded}

-- The ways to log in: with a key of SSH and nothing else; with a password, from the flag or from a file,
-- for a user or for none; or with neither of these.
pub data Login (fl : Flags) : Type 0 where
  by_key :
      fl.ssh ≡ true
      → Absent fl.username
      → Absent fl.password
      → Absent fl.password_file
      → Absent fl.askpass_url
      → fl.cookie_file ≡ false
      → Given fl.ssh_key_file
      → (fl.ssh_known_hosts ≡ false) ⊎ Given fl.ssh_known_hosts_file
      → Login fl
  by_password : fl.ssh ≡ false → Given fl.password → Absent fl.password_file → Login fl
  by_file : fl.ssh ≡ false → Absent fl.password → Given fl.password_file → Login fl
  by_none :
      fl.ssh ≡ false → Absent fl.username → Absent fl.password → Absent fl.password_file → Login fl

module _ (look_path : Text → Option Text) where
  -- What the checks promise the rest of the program.
  pub record IsValid (fl : Flags) : Type 0 where
    pub repo : Given fl.repo
    pub depth : IsNatural fl.depth
    pub submodules :
        (fl.submodules ≡ submodules_recursive)
        ⊎ ((fl.submodules ≡ submodules_shallow) ⊎ (fl.submodules ≡ submodules_off))
    pub root : Given fl.root
    pub dest : All (λ c. (c == b'/') ≡ false) fl.dest
    pub wait : IsNatural fl.wait
    pub sync_timeout : IsNatural fl.sync_timeout
    pub webhook :
        Given fl.webhook_url
        → ((fl.webhook_status_success ≡ negsuc 0) ⊎ IsNatural fl.webhook_status_success)
          × IsAtLeast 1000000000 fl.webhook_timeout
          × IsAtLeast 1000000000 fl.webhook_backoff
    pub git : look_path fl.git_cmd ≡ none
    pub login : Login fl

  missing_iff :
      (command : Text) → (is_missing look_path command ≡ false) ↔ (look_path command ≡ none)
  missing_iff command = by_look (look_path command)
    where
      by_look : (o : Option Text) → (elim o [ none ↦ false | some _ ↦ true ] ≡ false) ↔ (o ≡ none)
      by_look none = (λ _. refl, λ _. refl)
      by_look (some e) = (λ h. ground arith, λ h. ground arith)

  module _ (fl : Flags) where
    -- Without SSH, by which of the three texts are there.
    without_ssh : fl.ssh ≡ false → IsUnguarded look_path fl → Login fl
    without_ssh no_ssh u = elim (Bool-cases (is_empty fl.password)) [
      | inr p ↦ by_password no_ssh (empty-Given fl.password p) (
          empty-Absent fl.password_file
            (elim u.one_password [ inl q ↦ ground (arith, p, q) | inr q ↦ q ]))
      | inl p ↦ elim (Bool-cases (is_empty fl.password_file)) [
        | inr f ↦ by_file no_ssh (empty-Absent fl.password p) (empty-Given fl.password_file f)
        | inl f ↦ elim (Bool-cases (is_empty fl.username)) [
          | inl n ↦
              by_none no_ssh (empty-Absent fl.username n) (empty-Absent fl.password p)
                (empty-Absent fl.password_file f)
          | inr n ↦ elim (u.username n) [
            | inl q ↦ ground (arith, p, q)
            | inr q ↦ ground (arith, f, q)
          ]
        ]
      ]
    ]

    known_hosts :
        (fl.ssh_known_hosts && is_empty fl.ssh_known_hosts_file) ≡ false
        → (fl.ssh_known_hosts ≡ false) ⊎ Given fl.ssh_known_hosts_file
    known_hosts h = elim (Bool-cases (is_empty fl.ssh_known_hosts_file)) [
      | inl e ↦ inl (ground (arith, h, e))
      | inr e ↦ inr (empty-Given fl.ssh_known_hosts_file e)
    ]

    login : IsUnguarded look_path fl → Login fl
    login u = elim (Bool-cases fl.ssh) [
      | inl with_ssh ↦
          let (user, pw, file, url, cookie, key, hosts) = u.ssh with_ssh in
          by_key with_ssh (empty-Absent fl.username user) (empty-Absent fl.password pw)
            (empty-Absent fl.password_file file) (empty-Absent fl.askpass_url url) cookie
            (empty-Given fl.ssh_key_file key) (known_hosts hosts)
      | inr no_ssh ↦ without_ssh no_ssh u
    ]

    Unguarded-IsValid : IsUnguarded look_path fl → IsValid fl
    Unguarded-IsValid u = record {
      repo = empty-Given fl.repo u.repo;
      depth = (natural_iff fl.depth).0 u.depth;
      submodules = (mode_iff fl.submodules).0 u.submodules;
      root = empty-Given fl.root u.root;
      dest = (leaf_iff fl.dest).0 u.dest;
      wait = (natural_iff fl.wait).0 u.wait;
      sync_timeout = (natural_iff fl.sync_timeout).0 u.sync_timeout;
      webhook = λ given.
          let (code, timeout, backoff) = u.webhook (Given-empty fl.webhook_url given) in
          (
            (code_iff fl.webhook_status_success).0 code,
            (least_iff 1000000000 fl.webhook_timeout).0 timeout,
            (least_iff 1000000000 fl.webhook_backoff).0 backoff,
          );
      git = (missing_iff fl.git_cmd).0 u.git;
      login = login u;
    }

    hosts_back :
        (fl.ssh_known_hosts ≡ false) ⊎ Given fl.ssh_known_hosts_file
        → (fl.ssh_known_hosts && is_empty fl.ssh_known_hosts_file) ≡ false
    hosts_back (inl e) = rw e refl
    hosts_back (inr e) = ground (arith, Given-empty fl.ssh_known_hosts_file e)

    clash : {A : Type 0} → fl.ssh ≡ false → fl.ssh ≡ true → A
    clash a b = ground (arith, a, b)

    one_password_of : Login fl → (is_empty fl.password ≡ true) ⊎ (is_empty fl.password_file ≡ true)
    one_password_of (by_key _ _ pw _ _ _ _ _) = inl (Absent-empty fl.password pw)
    one_password_of (by_password _ _ file) = inr (Absent-empty fl.password_file file)
    one_password_of (by_file _ pw _) = inl (Absent-empty fl.password pw)
    one_password_of (by_none _ _ pw _) = inl (Absent-empty fl.password pw)

    username_of :
        Login fl
        → is_empty fl.username ≡ false
        → (is_empty fl.password ≡ false) ⊎ (is_empty fl.password_file ≡ false)
    username_of (by_key _ user _ _ _ _ _ _) h = absurd (empty-Given fl.username h user)
    username_of (by_password _ pw _) h = inl (Given-empty fl.password pw)
    username_of (by_file _ _ file) h = inr (Given-empty fl.password_file file)
    username_of (by_none _ user _ _) h = absurd (empty-Given fl.username h user)

    ssh_of :
        Login fl
        → fl.ssh ≡ true
        → (is_empty fl.username ≡ true)
          × (is_empty fl.password ≡ true)
          × (is_empty fl.password_file ≡ true)
          × (is_empty fl.askpass_url ≡ true)
          × (fl.cookie_file ≡ false)
          × (is_empty fl.ssh_key_file ≡ false)
          × ((fl.ssh_known_hosts && is_empty fl.ssh_known_hosts_file) ≡ false)
    ssh_of (by_key _ user pw file url cookie key hosts) h = (
      Absent-empty fl.username user,
      Absent-empty fl.password pw,
      Absent-empty fl.password_file file,
      Absent-empty fl.askpass_url url,
      cookie,
      Given-empty fl.ssh_key_file key,
      hosts_back hosts,
    )
    ssh_of (by_password no_ssh _ _) h = clash no_ssh h
    ssh_of (by_file no_ssh _ _) h = clash no_ssh h
    ssh_of (by_none no_ssh _ _ _) h = clash no_ssh h

    Valid-IsUnguarded : IsValid fl → IsUnguarded look_path fl
    Valid-IsUnguarded v = record {
      repo = Given-empty fl.repo v.repo;
      depth = (natural_iff fl.depth).1 v.depth;
      submodules = (mode_iff fl.submodules).1 v.submodules;
      root = Given-empty fl.root v.root;
      dest = (leaf_iff fl.dest).1 v.dest;
      wait = (natural_iff fl.wait).1 v.wait;
      sync_timeout = (natural_iff fl.sync_timeout).1 v.sync_timeout;
      webhook = λ given.
          let (code, timeout, backoff) = v.webhook (empty-Given fl.webhook_url given) in
          (
            (code_iff fl.webhook_status_success).1 code,
            (least_iff 1000000000 fl.webhook_timeout).1 timeout,
            (least_iff 1000000000 fl.webhook_backoff).1 backoff,
          );
      git = (missing_iff fl.git_cmd).1 v.git;
      one_password = one_password_of v.login;
      username = username_of v.login;
      ssh = ssh_of v.login;
    }

  -- Without `--version`, the flags pass the checks exactly if, with the default of `--dest` filled in,
  -- they are valid, and then they go on so filled in: there are a repository, a root and git; the
  -- destination has no slash; the mode of the submodules is one of the three; depth, wait and timeout are
  -- not below 0; a webhook has -1 or any number
  -- from 0 on as its status, and a second at least for its timeout and its backoff; and the login is by
  -- a key of SSH and nothing else, or by one password, from the flag or a file, for a user or none, or
  -- without SSH, user and password.
  pub validate_iff :
      (fl fl' : Flags)
      → fl.ver ≡ false
      → (validate look_path fl ≡ accepted fl')
        ↔ (IsValid (fill_dest fl) × (accepted (fill_dest fl) ≡ accepted fl'))
  validate_iff fl fl' h =
      let (to, back) = validate-IsUnguarded look_path fl fl' h in
      (
        λ e. let (u, same) = to e in (Unguarded-IsValid (fill_dest fl) u, same),
        λ (v, same). back (Valid-IsUnguarded (fill_dest fl) v, same),
      )
