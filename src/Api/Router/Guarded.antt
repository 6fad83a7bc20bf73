-- ===== src/Api/Router/Guarded.antt =====
-- Which handlers of server/api a request reaches without a token.
use abstruse.Prelude.{
  ℕ, zero, suc, ◌≡◌, ◌⊎◌, inl, inr, refl, sym, ap, ◌∙◌, Bool, true, false, String, str_eq, eq_iff,
  List, [], ◌∷◌, Option, none, some, get_elem?, any, all, both_true,
}
use abstruse.Auth.Claims.{UserClaims, WorkerClaims}
use abstruse.Auth.Request.{Request, Decoded, verifier}
use abstruse.Auth.Middleware.{
  Passage, passed, refused, panicked, admit, worker_authenticator, setup_open,
}
use abstruse.Api.Router.{
  Choice, picked, no_route, not_allowed, Route, Guard, unguarded, authenticated,
  authenticated_worker, setup, routes, Caller, nobody, user, worker, reached, served, through,
  chosen, serve,
}

abbrev pub public_handlers : List String
public_handlers =
    "setup.HandleReady" ∷ "user.HandleLogin" ∷ "worker.HandleList" ∷ "build.HandleLog"
    ∷ "ws.UpstreamHandler" ∷ "badge.HandleBadge" ∷ "fileServer" ∷ "webhook.HandleHook" ∷ "ui" ∷ []

abbrev pub worker_handlers : List String
worker_handlers =
    "worker.HandleAuth" ∷ "worker.HandleUploadCache" ∷ "worker.HandleDownloadCache" ∷ []

abbrev pub among : List String → String → Bool
among handlers h = any (str_eq h) handlers

abbrev expected : Guard → String → Bool
expected unguarded h = among public_handlers h
expected authenticated h = true
expected authenticated_worker h = among worker_handlers h
expected setup h = str_eq h "setup.HandleUser"

abbrev as_expected : Route → Bool
as_expected r = expected r.guard r.handler

all_expected : all as_expected routes ≡ true
unfolding routes
all_expected = refl

some_inj : {A : Type 0} {x y : A} → some x ≡ some y → x ≡ y
some_inj e = cc

reached_handler : {h k : String} {c d : Caller} → reached h c ≡ reached k d → h ≡ k
reached_handler e = cc

reached_caller : {h k : String} {c d : Caller} → reached h c ≡ reached k d → c ≡ d
reached_caller e = cc

all-get :
    {A : Type 0} (p : A → Bool) (xs : List A) (n : ℕ) (x : A)
    → all p xs ≡ true
    → get_elem? xs n ≡ some x
    → p x ≡ true
all-get p [] n x h e = absurd (cc)
all-get p (y ∷ ys) zero x h e = ap p (sym (some_inj e)) ∙ (both_true (p y) (all p ys) h).0
all-get p (y ∷ ys) (suc n) x h e = all-get p ys n x (both_true (p y) (all p ys) h).1 e

served-passed :
    {C : Type 0} (h : String) (f : C → Caller) (p : Passage C) {k : String} {c : Caller}
    → served h f p ≡ reached k c
    → (d : C) × (p ≡ passed d) × (h ≡ k) × (f d ≡ c)
served-passed h f (passed d) e = (d, refl, reached_handler e, reached_caller e)
served-passed h f (refused n t) e = absurd (cc)
served-passed h f panicked e = absurd (cc)

module _ (signer : String) (decode : String → Decoded) (admin_exists : Bool) (r : Request) where
  -- The handler is one of those that are open, or the request has got past the middleware for it.
  abbrev pub Due : String → Caller → Type 0
  Due h caller =
      ((among public_handlers h ≡ true) × (caller ≡ nobody))
      ⊎ ((c : UserClaims) × (caller ≡ user c) × (admit signer decode r ≡ passed c))
      ⊎ ((c : WorkerClaims) × (among worker_handlers h ≡ true)
          × (caller ≡ worker c)
          × (worker_authenticator (verifier signer decode r) ≡ passed c))
      ⊎ ((h ≡ "setup.HandleUser") × (admin_exists ≡ false))

  opened : (b : Bool) → setup_open b ≡ passed tt → b ≡ false
  unfolding setup_open
  opened true e = absurd (cc)
  opened false e = refl

  through-Due :
      (g : Guard) (h : String) {k : String} {caller : Caller}
      → expected g h ≡ true
      → through signer decode admin_exists g h r ≡ reached k caller
      → Due k caller
  through-Due unguarded h x e =
      inl (ap (among public_handlers) (sym (reached_handler e)) ∙ x, sym (reached_caller e))
  through-Due authenticated h x e =
      let (c, p, _, f) = served-passed h user (admit signer decode r) e in inr (inl (c, sym f, p))
  through-Due authenticated_worker h x e =
      let (c, p, s, f) =
        served-passed h worker (worker_authenticator (verifier signer decode r)) e in
      inr (inr (inl (c, ap (among worker_handlers) (sym s) ∙ x, sym f, p)))
  through-Due setup h x e =
      let (_, p, s, _) = served-passed h (λ _. nobody) (setup_open admin_exists) e in
      inr (inr (inr (sym s ∙ (eq_iff h "setup.HandleUser").0 x, opened admin_exists p)))

  chosen-Due :
      (n : ℕ) (o : Option Route) {k : String} {caller : Caller}
      → get_elem? routes n ≡ o
      → chosen signer decode admin_exists o r ≡ reached k caller
      → Due k caller
  chosen-Due n none at e = absurd (cc)
  chosen-Due n (some found) at e =
      through-Due found.guard found.handler (all-get as_expected routes n found all_expected at) e

  -- Whatever chi makes of a request's method and path, the handler that it reaches is one of nine that
  -- are open to everybody, or the request carries a token that lets it in as the user the handler is
  -- given, or it is one of the three for workers and the token is a worker's, or it is the handler that
  -- makes the first user and there is no administrator.
  pub serve-Due :
      (choice : Choice) (h : String) (caller : Caller)
      → serve signer decode admin_exists choice r ≡ reached h caller
      → Due h caller
  unfolding serve
  serve-Due (picked n) h caller e = chosen-Due n (get_elem? routes n) refl e
  serve-Due no_route h caller e =
      inl (ap (among public_handlers) (sym (reached_handler e)), sym (reached_caller e))
  serve-Due not_allowed h caller e = absurd (cc)
