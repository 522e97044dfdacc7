-- ===== src/Main/Validate/Guards.antt =====
-- The guards of the checks, all together.
use git_sync.Common.{
  ◌≡◌, refl, ◌∙◌, sym, ap, arith, Bool, true, false, ◌&&◌, Option, List, [], ◌∷◌, if◌then◌else◌,
  pos, negsuc, ltb_ℤ, Text, codes, is_empty, contains, All, ◌⊎◌, ◌↔◌,
}
use git_sync.Flags.{Flags}
use git_sync.Main.Validate.{
  Guard, Check, shows_version, refused, accepted, fill_dest, second, is_submodules_mode, is_missing,
  early_guards, late_guards, go_through, validate,
}

abbrev Passes : Guard → Type 0
Passes g = g.bad ≡ false

cons-accepted :
    (b usage : Bool) (message : Text) {rest : Check} {A : Type 0} (fl : Flags)
    → (rest ≡ accepted fl → A)
    → (if b then refused usage message else rest) ≡ accepted fl
    → (b ≡ false) × A
cons-accepted true usage message fl h e = ground arith
cons-accepted false usage message fl h e = (refl, h e)

no_version : {b : Bool} (x : Check) {y : Check} → b ≡ false → (if b then x else y) ≡ y
no_version x {y} h = ap (λ k. if k then x else y) h

go_through-accepted :
    (gs : List Guard) (next : Check) (fl : Flags)
    → go_through gs next ≡ accepted fl
    → All Passes gs × (next ≡ accepted fl)
unfolding go_through
go_through-accepted [] next fl h = (tt, h)
go_through-accepted (g ∷ gs) next fl h =
    let (p, (ps, e)) =
      cons-accepted g.bad g.print_usage g.message fl (go_through-accepted gs next fl) h in
    ((p, ps), e)

go_through-Passes : (gs : List Guard) (next : Check) → All Passes gs → go_through gs next ≡ next
unfolding go_through
go_through-Passes [] next h = refl
go_through-Passes (g ∷ gs) next h = rw h.0 (go_through-Passes gs next h.1)

module _ (look_path : Text → Option Text) where
  -- No guard holds.
  pub record IsUnguarded (fl : Flags) : Type 0 where
    pub repo : is_empty fl.repo ≡ false
    pub depth : ltb_ℤ fl.depth (pos 0) ≡ false
    pub submodules : is_submodules_mode fl.submodules ≡ true
    pub root : is_empty fl.root ≡ false
    pub dest : contains fl.dest (codes "/") ≡ false
    pub wait : ltb_ℤ fl.wait (pos 0) ≡ false
    pub sync_timeout : ltb_ℤ fl.sync_timeout (pos 0) ≡ false
    pub webhook :
        is_empty fl.webhook_url ≡ false
        → (ltb_ℤ fl.webhook_status_success (negsuc 0) ≡ false)
          × (ltb_ℤ fl.webhook_timeout second ≡ false)
          × (ltb_ℤ fl.webhook_backoff second ≡ false)
    pub git : is_missing look_path fl.git_cmd ≡ false
    pub one_password : (is_empty fl.password ≡ true) ⊎ (is_empty fl.password_file ≡ true)
    pub username :
        is_empty fl.username ≡ false
        → (is_empty fl.password ≡ false) ⊎ (is_empty fl.password_file ≡ false)
    pub ssh :
        fl.ssh ≡ true
        → (is_empty fl.username ≡ true)
          × (is_empty fl.password ≡ true)
          × (is_empty fl.password_file ≡ true)
          × (is_empty fl.askpass_url ≡ true)
          × (fl.cookie_file ≡ false)
          × (is_empty fl.ssh_key_file ≡ false)
          × ((fl.ssh_known_hosts && is_empty fl.ssh_known_hosts_file) ≡ false)

  Passes-IsUnguarded :
      (fl : Flags)
      → All Passes (early_guards look_path fl)
      → All Passes (late_guards look_path fl)
      → IsUnguarded fl
  unfolding early_guards late_guards
  Passes-IsUnguarded fl (r, (d, (s, (t, _))))
        (
          de,
          (
            wa,
            (ti, (w1, (w2, (w3, (gi, (pw, (us, (s1, (s2, (s3, (s4, (s5, (s6, (s7, _)))))))))))))),
          ),
        ) =
      record {
        repo = r;
        depth = d;
        submodules = ground arith;
        root = t;
        dest = de;
        wait = wa;
        sync_timeout = ti;
        webhook = λ h. (ground arith, ground arith, ground arith);
        git = gi;
        one_password = ground arith;
        username = λ h. ground arith;
        ssh = λ h. ground arith;
      }

  IsUnguarded-Passes :
      (fl : Flags)
      → IsUnguarded fl
      → All Passes (early_guards look_path fl) × All Passes (late_guards look_path fl)
  unfolding early_guards late_guards
  IsUnguarded-Passes fl v = (
    (v.repo, (v.depth, (ground arith, (v.root, tt)))),
    (
      v.dest,
      (
        v.wait,
        (
          v.sync_timeout,
          (
            ground arith,
            (
              ground arith,
              (
                ground arith,
                (
                  v.git,
                  (
                    ground arith,
                    (
                      ground arith,
                      (
                        ground arith,
                        (
                          ground arith,
                          (
                            ground arith,
                            (ground arith, (ground arith, (ground arith, (ground arith, tt)))),
                          ),
                        ),
                      ),
                    ),
                  ),
                ),
              ),
            ),
          ),
        ),
      ),
    ),
  )

  -- Without `--version`, the flags pass the checks exactly if, with the default of `--dest` filled in,
  -- no guard holds of them; and then they go on so filled in.
  pub validate-IsUnguarded :
      (fl fl' : Flags)
      → fl.ver ≡ false
      → (validate look_path fl ≡ accepted fl')
        ↔ (IsUnguarded (fill_dest fl) × (accepted (fill_dest fl) ≡ accepted fl'))
  unfolding validate fill_dest early_guards
  validate-IsUnguarded fl fl' h = (sound, complete)
    where
      sound :
          validate look_path fl ≡ accepted fl'
          → IsUnguarded (fill_dest fl) × (accepted (fill_dest fl) ≡ accepted fl')
      sound e =
          let (early, later) =
            go_through-accepted (early_guards look_path fl) _ fl'
              (sym (no_version shows_version h) ∙ e) in
          let (late, done) =
            go_through-accepted (late_guards look_path (fill_dest fl)) _ fl' later in
          (Passes-IsUnguarded (fill_dest fl) early late, done)

      complete :
          IsUnguarded (fill_dest fl) × (accepted (fill_dest fl) ≡ accepted fl')
          → validate look_path fl ≡ accepted fl'
      complete (v, e) =
          let (early, late) = IsUnguarded-Passes (fill_dest fl) v in
          no_version shows_version h
          ∙ (go_through-Passes (early_guards look_path fl) _ early
              ∙ (go_through-Passes (late_guards look_path (fill_dest fl)) _ late ∙ e))
