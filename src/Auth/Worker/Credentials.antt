-- ===== src/Auth/Worker/Credentials.antt =====
-- Whom a worker's server lets in: `authenticate` of worker/app/interceptor.go.
use abstruse.Prelude.{
  String, ◌≡◌, ◌↔◌, refl, sym, ap, subst, ◌∙◌, Bool, true, false, some, join, str_eq, eq_iff,
  eq_refl, if◌then◌else◌, Result, ok, err, panic,
}
use abstruse.Auth.Claims.{then_claim}
use abstruse.Auth.Request.{Token}
use abstruse.Auth.Worker.{Metadata, identified, worker_identifier, compared, authenticate}

-- The call's token parses with the worker's secret and names the identifier: in its claim, or, for a token
-- without valid claims, as the empty text.
abbrev pub Names : (String → Result Token) → String → String → Type 0
Names parse jwt identifier =
    (t : Token) × (str_eq jwt "" ≡ false)
    × (parse jwt ≡ ok t)
    × (identified t t.claims ≡ ok identifier)

then_claim-ok :
    {A B : Type 0} (r : Result A) (f : A → Result B) {b : B}
    → then_claim r f ≡ ok b
    → (a : A) × (r ≡ ok a) × (f a ≡ ok b)
then_claim-ok (ok a) f h = (a, refl, h)
then_claim-ok (err e) f h = absurd (cc)
then_claim-ok panic f h = absurd (cc)

ok-same : {A : Type 0} {x y : A} → ok x ≡ ok y → x ≡ y
ok-same e = cc

compared_ok :
    (parse : String → Result Token) (identifier : String) (r : Result String) (id : String)
    → compared parse identifier r ≡ ok id
    → (id ≡ identifier) × (r ≡ ok identifier)
compared_ok parse identifier (ok calc) id h = compare_with (str_eq calc identifier) refl h
  where
    compare_with :
        (b : Bool)
        → str_eq calc identifier ≡ b
        → (if b then ok identifier else err "invalid credentials") ≡ ok id
        → (id ≡ identifier) × (ok calc ≡ ok identifier)
    compare_with true e h = (sym (ok-same h), ap ok ((eq_iff calc identifier).0 e))
    compare_with false e h = absurd (cc)
compared_ok parse identifier (err e) id h = absurd (cc)
compared_ok parse identifier panic id h = absurd (cc)

named :
    (parse : String → Result Token) (jwt identifier : String) (b : Bool)
    → str_eq jwt "" ≡ b
    → (if b then err "invalid token" else then_claim (parse jwt) (λ t. identified t t.claims))
      ≡ ok identifier
    → Names parse jwt identifier
named parse jwt identifier true e h = absurd (cc)
named parse jwt identifier false e h =
    let (t, parsed, same) = then_claim-ok (parse jwt) _ h in (t, e, parsed, same)

-- A worker's server lets a call in as `id` exactly if it comes with metadata whose identifier is `id` and
-- whose token is not empty, parses with the worker's secret, and names `id`.
pub authenticate_iff :
    (parse : String → Result Token) (md : Metadata) (id : String)
    → (authenticate parse (some md) ≡ ok id)
      ↔ ((id ≡ join md.identifier "") × Names parse (join md.jwt "") id)
unfolding authenticate worker_identifier
authenticate_iff parse md id = (
  λ h.
      let (same, calc) = compared_ok parse (join md.identifier "") _ id h in
      (
        same,
        subst (Names parse (join md.jwt "")) (sym same)
            (named parse (join md.jwt "") (join md.identifier "") _ refl calc),
      ),
  λ (same, (t, e, parsed, names)).
      let calc : worker_identifier parse (join md.jwt "") ≡ ok id = rw (e, parsed) names in
      ap (compared parse (join md.identifier "")) calc
      ∙ (ap (λ i. compared parse i (ok id)) (sym same) ∙ rw (eq_refl id) refl),
)
