-- ===== src/Api/Logs/Shown.antt =====
-- Who reads the log of a job, and which log it is.
use abstruse.Prelude.{
  ok_inj, and_run, ℕ, ◌≡◌, ◌≢◌, ◌↔◌, refl, sym, ap, ◌∙◌, String, Bool, true, false, Option, none,
  some, str_eq, eq_iff, Bool-cases, inl, inr, if◌then◌else◌, Result, ok, err, panic,
}
use abstruse.Core.{Job}
use abstruse.Auth.Claims.{MapClaims, UserClaims, parse_user_claims}
use abstruse.Auth.Request.{Token}
use abstruse.Auth.FromJwt.{user_claims_from_jwt, of_token, of_claims}
use abstruse.Scheduler.State.{Scheduler}
use abstruse.Store.Jobs
use abstruse.Store.Jobs.{JobTable}
use abstruse.Api.Answer.{Answer, success, forbidden, not_found, bad_request, or_render, Handler}
use abstruse.Scheduler.Ops.{job_log}
use abstruse.Api.Answer.Spared.{or_render-success}
use abstruse.Api.Logs.{or_stored, current_log, found_log, handle_log}

-- The token is not empty, jwt-go takes it for a valid one, and its claims are those of a user.
abbrev pub Signed : (String → Result Token) → String → UserClaims → Type 0
Signed parse token c =
    (token ≢ "")
    × (t : Token) × (claims : MapClaims) × (parse token ≡ ok t)
    × (t.valid ≡ true)
    × (t.claims ≡ some claims)
    × (parse_user_claims claims ≡ ok c)

of_claims-ok :
    (v : Bool) (m : Option MapClaims) {c : UserClaims}
    → of_claims parse_user_claims v m ≡ ok c
    → (claims : MapClaims) × (v ≡ true) × (m ≡ some claims) × (parse_user_claims claims ≡ ok c)
of_claims-ok v none h = absurd (cc)
of_claims-ok false (some m) h = absurd (cc)
of_claims-ok true (some m) h = (m, refl, refl, h)

of_token-ok :
    (r : Result Token) {c : UserClaims}
    → of_token parse_user_claims r ≡ ok c
    → (t : Token) × (claims : MapClaims) × (r ≡ ok t)
      × (t.valid ≡ true)
      × (t.claims ≡ some claims)
      × (parse_user_claims claims ≡ ok c)
of_token-ok (ok t) h = let (m, v, e, p) = of_claims-ok t.valid t.claims h in (t, m, refl, v, e, p)
of_token-ok (err e) h = absurd (cc)
of_token-ok panic h = absurd (cc)

past :
    {A : Type 0} (b : Bool) (r : Result A) {a : A}
    → (if b then err "invalid token" else r) ≡ ok a
    → (b ≡ false) × (r ≡ ok a)
past true r h = absurd (cc)
past false r h = (refl, h)

nonempty : (s : String) → str_eq s "" ≡ false → s ≢ ""
nonempty s e h = absurd (true_ne (sym ((eq_iff s "").1 h) ∙ e))
  where
    true_ne : true ≢ false
    true_ne e = cc

empty : (s : String) → s ≢ "" → str_eq s "" ≡ false
empty s n = elim (Bool-cases (str_eq s "")) [ inl e ↦ absurd (n ((eq_iff s "").0 e)) | inr e ↦ e ]

user_claims_from_jwt_iff :
    (parse : String → Result Token) (token : String) (c : UserClaims)
    → (user_claims_from_jwt parse token ≡ ok c) ↔ Signed parse token c
unfolding user_claims_from_jwt
user_claims_from_jwt_iff parse token c = (
  λ h.
      let (e, r) = past (str_eq token "") _ h in
      let (t, m, p, v, k, c) = of_token-ok (parse token) r in (nonempty token e, t, m, p, v, k, c),
  λ (n, t, m, p, v, k, c). rw (empty token n, p) (rw (v, k) c),
)

module _ {S A B : Type 0} (refused unknown : String → Answer A) (e : String)
    (h : B → Handler S A) where
  abbrev guarded : Bool → Result B → Handler S A
  guarded b r s = if b then (refused e, s) else or_render unknown r h s

  guarded_past :
      (b : Bool) (r : Result B) (s t : S) {a : A}
      → ((e : String) → refused e ≢ success a)
      → guarded b r s ≡ (success a, t)
      → (b ≡ false) × (or_render unknown r h s ≡ (success a, t))
  guarded_past true r s t n k = absurd (n e (ap (λ p. p.0) k))
  guarded_past false r s t n k = (refl, k)

  guarded_on :
      (b : Bool) (r : Result B) (s : S) {x : B} → b ≡ false → r ≡ ok x → guarded b r s ≡ h x s
  guarded_on b r s e f = rw (e, f) refl

module _ {S : Type 0} (find_user : ℕ → ℕ → S → Result Job) (strip : String → String) where
  -- The user of the token sees the job of the address, and the text is its log as it stands.
  abbrev pub MayRead : (String → Result Token) → String → Result ℕ → Scheduler S → String → Type 0
  MayRead parse token address s text =
      (c : UserClaims) × (id : ℕ) × (job : Job) × Signed parse token c
      × (address ≡ ok id)
      × (find_user id c.id s.outside ≡ ok job)
      × (text ≡ strip (current_log id job s))

  found_log_shown :
      (address : Result ℕ) (user : ℕ) (s t : Scheduler S) {text : String}
      → found_log find_user strip address user s ≡ (success text, t)
      → (id : ℕ) × (job : Job) × (address ≡ ok id)
        × (find_user id user s.outside ≡ ok job)
        × (text ≡ strip (current_log id job s))
  found_log_shown address user s t h =
      let (id, a, h1) = or_render-success bad_request address _ s t (λ e n. absurd (cc)) h in
      let (job, f, h2) =
        or_render-success not_found (find_user id user s.outside) _ s t (λ e n. absurd (cc)) h1 in
      (id, job, a, f, cc)

  pub handle_log_iff :
      (parse : String → Result Token) (token : String) (address : Result ℕ) (s : Scheduler S)
      (text : String)
      → (handle_log find_user strip parse token address s ≡ (success text, s))
        ↔ MayRead parse token address s text
  unfolding handle_log
  handle_log_iff parse token address s text = (
    λ h.
        let (e, h1) =
          guarded_past forbidden (λ e. forbidden "invalid token") "token not provided" _
            (str_eq token "") (user_claims_from_jwt parse token) s s (λ e n. absurd (cc)) h in
        let (c, u, h2) =
          or_render-success _ (user_claims_from_jwt parse token) _ s s (λ e n. absurd (cc)) h1 in
        let (id, job, a, f, same) = found_log_shown address c.id s s h2 in
        (c, id, job, (user_claims_from_jwt_iff parse token c).0 u, a, f, same),
    λ (c, id, job, signed, a, f, same).
        guarded_on forbidden (λ e. forbidden "invalid token") "token not provided"
          (λ c. found_log find_user strip address c.id) (str_eq token "")
          (user_claims_from_jwt parse token) s (empty token signed.0)
          ((user_claims_from_jwt_iff parse token c).1 signed)
        ∙ rw (a, f, same) refl,
  )

-- The log with the store of jobs.
module _ {S : Type 0} (table : JobTable S) (strip : String → String) where
  abbrev pub found_for : ℕ → ℕ → S → Result Job
  found_for id user s = (Jobs.find_user table id user s).0

  -- The token is of some user, the address names a job that is there, and the text is its log as it stands.
  abbrev pub IsLog : (String → Result Token) → String → Result ℕ → Scheduler S → String → Type 0
  IsLog parse token address s text =
      (c : UserClaims) × (id : ℕ) × (job : Job) × Signed parse token c
      × (address ≡ ok id)
      × (table.by_id id s.outside ≡ ok job)
      × (text ≡ strip (current_log id job s))

  found_for-ok :
      (user : ℕ) (s : S) (r : Result Job) {job : Job}
      → (and_run (r, s) (λ job s. (ok (Jobs.with_perms table user job s), s))).0 ≡ ok job
      → (stored : Job) × (r ≡ ok stored) × (job.log ≡ stored.log)
  found_for-ok user s (ok stored) h = (stored, refl, sym (ap Job.log (ok_inj h)))
  found_for-ok user s (err e) h = absurd (cc)
  found_for-ok user s panic h = absurd (cc)

  -- With the store of jobs as its argument, a request for a log is answered with a text exactly if its token
  -- is a valid one of any user, the address names a job of the store, and the text is the log that the
  -- running job has now, or the stored one where the job does not run, without its escape sequences: whether
  -- the user may read the job's repository plays no part.
  pub handle_log-IsLog :
      (parse : String → Result Token) (token : String) (address : Result ℕ) (s : Scheduler S)
      (text : String)
      → (handle_log found_for strip parse token address s ≡ (success text, s))
        ↔ IsLog parse token address s text
  unfolding Jobs.find_user Jobs.find current_log
  handle_log-IsLog parse token address s text = (
    λ h.
        let (c, id, job, signed, a, f, same) =
          (handle_log_iff found_for strip parse token address s text).0 h in
        let (stored, g, e) = found_for-ok c.id s.outside (table.by_id id s.outside) f in
        (c, id, stored, signed, a, g, same ∙ ap (λ log. strip (or_stored log (job_log id s))) e),
    λ (c, id, job, signed, a, f, same).
        (handle_log_iff found_for strip parse token address s text).1
          (c, id, Jobs.with_perms table c.id job s.outside, signed, a, rw f refl, same),
  )
