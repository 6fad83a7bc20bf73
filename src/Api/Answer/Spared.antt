-- ===== src/Api/Answer/Spared.antt =====
-- A handler of server/api changes nothing, or has got past its checks.
use abstruse.Prelude.{
  ◌≡◌, ◌≢◌, ◌⊎◌, inl, refl, sym, ap, String, str_eq, eq_iff, not, if◌then◌else◌, Bool, true, false,
  Result, ok, err, panic,
}
use abstruse.Api.Answer.{
  success, Body, undecodable, invalid, form, Answer, Handler, with_body, or_render, permitted,
  only_admin, crashed,
}

abbrev pub Spares : {S A : Type 0} → Handler S A → S → Type 0 → Type 0
Spares h s P = ((h s).1 ≡ s) ⊎ P

module _ {S A B : Type 0} (P : Type 0) where
  pub with_body-Spares :
      (b : Body B) (h : B → Handler S A) (s : S)
      → ((f : B) → b ≡ form f → Spares (h f) s P)
      → Spares (with_body b h) s P
  with_body-Spares (undecodable e) h s k = inl refl
  with_body-Spares (invalid e) h s k = inl refl
  with_body-Spares (form f) h s k = k f refl

  pub or_render-Spares :
      (render : String → Answer A) (r : Result B) (h : B → Handler S A) (s : S)
      → ((x : B) → r ≡ ok x → Spares (h x) s P)
      → Spares (or_render render r h) s P
  or_render-Spares render (ok x) h s k = k x refl
  or_render-Spares render (err e) h s k = inl refl
  or_render-Spares render panic h s k = inl refl

module _ {S A : Type 0} (P : Type 0) where
  pub permitted-Spares :
      (b : Bool) (h : Handler S A) (s : S) → (b ≡ true → Spares h s P) → Spares (permitted b h) s P
  permitted-Spares true h s k = k refl
  permitted-Spares false h s k = inl refl

  pub only_admin-Spares :
      (r : Result String) (h : Handler S A) (s : S)
      → (r ≡ ok "admin" → Spares h s P)
      → Spares (only_admin r h) s P
  only_admin-Spares (ok role) h s k = by_role (str_eq role "admin") refl
    where
      by_role :
          (b : Bool)
          → b ≡ str_eq role "admin"
          → Spares (λ s. if not b then (crashed, s) else h s) s P
      by_role true e = k (ap ok ((eq_iff role "admin").0 (sym e)))
      by_role false e = inl refl
  only_admin-Spares (err e) h s k = inl refl
  only_admin-Spares panic h s k = inl refl

-- A handler that goes on after a check answers "success" only past the check.
pub or_render-success :
    {S A B : Type 0} (render : String → Answer A) (r : Result B) (h : B → Handler S A) {a : A}
    (s t : S)
    → ((e : String) → render e ≢ success a)
    → or_render render r h s ≡ (success a, t)
    → (x : B) × (r ≡ ok x) × (h x s ≡ (success a, t))
or_render-success render (ok x) h s t n e = (x, refl, e)
or_render-success render (err x) h s t n e = absurd (n x (ap (λ p. p.0) e))
or_render-success render panic h s t n e = absurd (cc)

pub permitted-success :
    {S A : Type 0} (b : Bool) (h : Handler S A) {a : A} (s t : S)
    → permitted b h s ≡ (success a, t)
    → (b ≡ true) × (h s ≡ (success a, t))
permitted-success true h s t e = (refl, e)
permitted-success false h s t e = absurd (cc)
