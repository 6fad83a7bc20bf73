-- ===== src/Prelude/Effects.antt =====
-- Code that reads and writes an outside and fails with an error or a panic. What was written before a
-- failure stays written.
use Prim.Native.String.{String}
use mathlib.Core.Path.{◌≡◌, refl, sym, ap, ◌∙◌, subst}
use mathlib.Core.Logic.{◌⊎◌, inl}
use mathlib.Core.Bool.{Bool, true, false, not}
use mathlib.Core.List.{List, [], ◌∷◌}
use abstruse.Prelude.Tests.{if◌then◌else◌}
use abstruse.Prelude.Lists.{Pairwise}

pub data Result (A : Type 0) : Type 0 where
  ok : A → Result A
  err : String → Result A
  panic : Result A

abbrev pub Effect : Type 0 → Type 0 → Type 0
Effect S A = S → Result A × S

module _ {S A : Type 0} where
  abbrev pub pure : A → Effect S A
  pure a s = (ok a, s)

  abbrev pub raise : String → Effect S A
  raise e s = (err e, s)

  abbrev pub panics : Effect S A
  panics s = (panic, s)

  -- Code that only reads.
  abbrev pub reads : (S → Result A) → Effect S A
  reads f s = (f s, s)

  abbrev pub lift : Result A → Effect S A
  lift r s = (r, s)

  abbrev pub gets : (S → A) → Effect S A
  gets f s = (ok (f s), s)

-- `a, err := m(); if err != nil { return err }`
abbrev pub and_run : {S A B : Type 0} → Result A × S → (A → Effect S B) → Result B × S
and_run (ok a, s) f = f a s
and_run (err e, s) f = (err e, s)
and_run (panic, s) f = (panic, s)

infixl 5 ◌>>=◌ ◌>>◌
abbrev pub ◌>>=◌ : {S A B : Type 0} → Effect S A → (A → Effect S B) → Effect S B
m >>= f = λ s. and_run (m s) f

abbrev pub ◌>>◌ : {S A B : Type 0} → Effect S A → Effect S B → Effect S B
m >> k = m >>= λ _. k

module _ {S : Type 0} where
  abbrev pub done : Effect S (Unit {0})
  done = pure tt

  abbrev pub raise_if : Bool → String → Effect S (Unit {0})
  raise_if c e = if c then raise e else done

-- for _, x := range xs { y, err := f(x); if err != nil { return err }; ys = append(ys, y) }
unfoldable pub for_each : {S A B : Type 0} → (A → Effect S B) → List A → Effect S (List B)
for_each f [] = pure []
for_each f (x ∷ xs) = do y ← f x; ys ← for_each f xs; pure (y ∷ ys)

-- A sequence that succeeds is two parts that succeed.
pub and_run-ok :
    {S A B : Type 0} (r : Result A × S) (f : A → Effect S B) {b : B} {t : S}
    → and_run r f ≡ (ok b, t)
    → (a : A) × (s : S) × (r ≡ (ok a, s)) × (f a s ≡ (ok b, t))
and_run-ok (ok a, s) f h = (a, s, refl, h)
and_run-ok (err e, s) f h = absurd (cc)
and_run-ok (panic, s) f h = absurd (cc)

pub ok_inj : {A : Type 0} {x y : A} → ◌≡◌ {A = Result A} (ok x) (ok y) → x ≡ y
ok_inj e = cc

pub ok-injective :
    {A S : Type 0} {a b : A} {s t : S} → ◌≡◌ {A = Result A × S} (ok a, s) (ok b, t) → a ≡ b
ok-injective e = cc

-- What holds of every element and its result holds of all of them, in order.
pub for_each-Pairwise :
    {S A B : Type 0} (R : A → B → Type 0) (f : A → Effect S B)
    → ((x : A) (y : B) (s t : S) → f x s ≡ (ok y, t) → R x y)
    → (xs : List A) (s : S) {ys : List B} {t : S} → for_each f xs s ≡ (ok ys, t)
    → Pairwise R xs ys
unfolding for_each
for_each-Pairwise R f h [] s e = subst (λ l. Pairwise R [] l) (ok-injective e) tt
for_each-Pairwise R f h (x ∷ xs) s e =
    let (y, s1, ey, e1) = and_run-ok (f x s) _ e in
    let (ys, s2, es, e2) = and_run-ok (for_each f xs s1) _ e1 in
    subst (λ l. Pairwise R (x ∷ xs) l) (ok-injective e2)
      (h x y s s1 ey, for_each-Pairwise R f h xs s1 es)

-- Code that leaves the outside as it is.
abbrev pub ReadsOnly : {S A : Type 0} → Effect S A → Type 0
ReadsOnly {S = S} m = (s : S) → (m s).1 ≡ s

-- What follows a guard on a failed test.
pub unless-ok :
    {S A : Type 0} (b : Bool) (e : String) (a : A) (s : S) {a' : A} {t : S}
    → (raise_if (not b) e >> pure a) s ≡ (ok a', t)
    → (b ≡ true) × (a ≡ a')
unless-ok true e a s h = (refl, ok-injective h)
unless-ok false e a s h = absurd (cc)

pub unless-ReadsOnly :
    {S A : Type 0} (b : Bool) (e : String) (a : A)
    → ReadsOnly {S = S} (raise_if (not b) e >> pure a)
unless-ReadsOnly true e a s = refl
unless-ReadsOnly false e a s = refl

pub and_run-same :
    {S A B : Type 0} (r : Result A × S) (f : A → Effect S B) (s : S)
    → r.1 ≡ s
    → ((a : A) → ReadsOnly (f a))
    → (and_run r f).1 ≡ s
and_run-same (ok a, s') f s h k = k a s' ∙ h
and_run-same (err e, s') f s h k = h
and_run-same (panic, s') f s h k = h

pub >>=-ReadsOnly :
    {S A B : Type 0} (m : Effect S A) (f : A → Effect S B)
    → ReadsOnly m
    → ((a : A) → ReadsOnly (f a))
    → ReadsOnly (m >>= f)
>>=-ReadsOnly m f h k s = and_run-same (m s) f s (h s) k

pub if-ReadsOnly :
    {S A : Type 0} (b : Bool) (m n : Effect S A)
    → ReadsOnly m
    → ReadsOnly n
    → ReadsOnly (if b then m else n)
if-ReadsOnly true m n h k = h
if-ReadsOnly false m n h k = k

-- After code that only reads, the next part runs in the same state.
pub reading-ok :
    {S A B : Type 0} (m : Effect S A) (f : A → Effect S B)
    → ReadsOnly m
    → (s : S) {b : B} {t : S} → (m >>= f) s ≡ (ok b, t)
    → (a : A) × (m s ≡ (ok a, s)) × (f a s ≡ (ok b, t))
reading-ok m f same s e =
    let (a, s', em, ef) = and_run-ok (m s) f e in
    let back = sym (ap (λ r. r.1) em) ∙ same s in
    (a, em ∙ ap (λ x. (ok a, x)) back, sym (ap (f a) back) ∙ ef)

and_run-or :
    {S A B : Type 0} (P : Type 0) (r : Result A × S) (f : A → Effect S B) (s : S)
    → r.1 ≡ s
    → ((a : A) → ◌≡◌ {A = Result A × S} r (ok a, s) → ((f a s).1 ≡ s) ⊎ P)
    → ((and_run r f).1 ≡ s) ⊎ P
and_run-or P (ok a, s') f s h k =
    subst (λ x. ((f a x).1 ≡ s) ⊎ P) (sym h) (k a (ap (λ x. (ok a, x)) h))
and_run-or P (err e, s') f s h k = inl h
and_run-or P (panic, s') f s h k = inl h

-- Code that first reads: what it writes, it writes after the reading has succeeded.
pub reading-or :
    {S A B : Type 0} (P : Type 0) (m : Effect S A) (f : A → Effect S B)
    → ReadsOnly m
    → (s : S) → ((a : A) → m s ≡ (ok a, s) → ((f a s).1 ≡ s) ⊎ P)
    → (((m >>= f) s).1 ≡ s) ⊎ P
reading-or P m f same s k = and_run-or P (m s) f s (same s) k
