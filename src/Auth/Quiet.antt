-- ===== src/Auth/Quiet.antt =====
-- The credentials are set up by calls that the view of the disk does not show.
use git_sync.Common.{◌≡◌, refl, ℕ, not, [], ◌∷◌, arith, ◌==◌, Text, codes}
use git_sync.Flags.{Flags}
use git_sync.Os.{http_request, http_do, read_body, close_file, Env, Machine, Io, perform}
use git_sync.Os.Frame.{
  Keeps, Keeps-pure, Keeps-fail, Keeps-bind, Keeps-or_else, Keeps-defer, Keeps-if,
}
use git_sync.Auth.{
  wrap, setup_git_auth, client_do, refuse_status, read_response, approve_response,
  call_git_askpass_url,
}
use git_sync.Disk.{action}
use git_sync.Disk.Quiet.{IsQuietFrame, Keeps-os, Keeps-run, Keeps-run_command}

module _ {env : Env} {R : Machine → Machine → Type 0} (q : IsQuietFrame env R) (fl : Flags) where
  pub Keeps-wrap {ℓ} : {A : Type ℓ} (msg : Text) {x : Io A} → Keeps R x → Keeps R (wrap msg x)
  Keeps-wrap msg h = Keeps-or_else q.frame h λ e. Keeps-fail q.frame _

  pub Keeps-setup_git_auth :
      (username password git_url : Text) → Keeps R (setup_git_auth env fl username password git_url)
  unfolding setup_git_auth action
  Keeps-setup_git_auth username password git_url =
      Keeps-bind q.frame
        (Keeps-wrap (codes "can't configure git credential helper") (
          Keeps-run_command q [] fl.git_cmd
            (codes "config" ∷ codes "--global" ∷ codes "credential.helper" ∷ codes "store" ∷ [])
            refl))
        λ _.
          Keeps-bind q.frame
            (Keeps-wrap (codes "can't configure git credentials")
              (Keeps-run q [] _ fl.git_cmd (codes "credential" ∷ codes "approve" ∷ []) refl))
            λ _. Keeps-pure q.frame tt

  client_do-machine :
      (url : Text) (m : Machine)
      → (client_do env fl url m).1 ≡ (perform env (http_do (codes "GET") url) m).1
  unfolding client_do
  client_do-machine url m = ground arith

  Keeps-client_do : (url : Text) → Keeps R (client_do env fl url)
  Keeps-client_do url = record {
    keeps =
        λ m. rw client_do-machine (q.call (http_do (codes "GET") url) m (unfold action in refl));
  }

  Keeps-read_response : (status : ℕ) → Keeps R (read_response env fl status)
  unfolding read_response refuse_status action
  Keeps-read_response status =
      Keeps-if q.frame (not (status == 200))
        (Keeps-bind q.frame
          (Keeps-or_else q.frame (Keeps-os q read_body refl) λ e. Keeps-fail q.frame _)
          λ body. Keeps-fail q.frame _)
        (Keeps-wrap (codes "can't read auth response") (Keeps-os q read_body refl))

  pub Keeps-call_git_askpass_url : (url : Text) → Keeps R (call_git_askpass_url env fl url)
  unfolding call_git_askpass_url approve_response action
  Keeps-call_git_askpass_url url =
      Keeps-bind q.frame
        (Keeps-wrap (codes "can't create auth request")
          (Keeps-os q (http_request (codes "GET") url) refl))
        λ _.
          Keeps-bind q.frame (Keeps-wrap (codes "can't access auth URL") (Keeps-client_do url))
            λ status. Keeps-defer q.frame (Keeps-os q (close_file url) refl) (
              Keeps-bind q.frame (Keeps-read_response status)
                λ data_. Keeps-setup_git_auth _ _ fl.repo)
