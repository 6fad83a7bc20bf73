-- ===== src/Prelude/Members.antt =====
-- Boolean tests on the elements of a list, and what it means that they succeed.
use mathlib.Core.Path.{◌≡◌, refl, sym, ap, ◌∙◌}
use mathlib.Core.Logic.{◌⊎◌, inl, inr}
use mathlib.Core.Bool.{Bool, true, false, ◌&&◌, ◌||◌}
use mathlib.Core.List.{List, [], ◌∷◌, ◌++◌}
use mathlib.Core.List.Memᴰ
use mathlib.Core.List.{Memᴰ}
use abstruse.Prelude.Tests.{if◌then◌else◌}
use abstruse.Prelude.Lists.{any, keep}

pub both_true : (a b : Bool) → (a && b) ≡ true → (a ≡ true) × (b ≡ true)
both_true true b h = (refl, h)
both_true false b h = absurd (cc)

pub and_true : {a b : Bool} → a ≡ true → b ≡ true → (a && b) ≡ true
and_true h k = rw (h, k) refl

pub either_true : (a b : Bool) → (a || b) ≡ true → (a ≡ true) ⊎ (b ≡ true)
either_true true b h = inl refl
either_true false b h = inr h

pub or_true_left : {a : Bool} (b : Bool) → a ≡ true → (a || b) ≡ true
or_true_left b h = rw h refl

pub or_true_right : (a : Bool) {b : Bool} → b ≡ true → (a || b) ≡ true
or_true_right true h = refl
or_true_right false h = h

pub or-false : (b : Bool) → (b || false) ≡ b
or-false true = refl
or-false false = refl

pub and-false : (b : Bool) → (b && false) ≡ false
and-false true = refl
and-false false = refl

pub or_assoc : (a b c : Bool) → ((a || b) || c) ≡ (a || (b || c))
or_assoc true b c = refl
or_assoc false b c = refl

pub any-append :
    {A : Type 0} (p : A → Bool) (xs ys : List A) → any p (xs ++ ys) ≡ (any p xs || any p ys)
any-append p [] ys = refl
any-append p (x ∷ xs) ys = ap (λ b. p x || b) (any-append p xs ys) ∙ sym (or_assoc (p x) _ _)

module _ {A : Type 0} where
  pub any-Memᴰ : (p : A → Bool) (xs : List A) → any p xs ≡ true → (x : A) × Memᴰ x xs × (p x ≡ true)
  any-Memᴰ p [] h = absurd (cc)
  any-Memᴰ p (x ∷ xs) h = elim (either_true (p x) (any p xs) h) [
    | inl now ↦ (x, Memᴰ.head refl, now)
    | inr later ↦ let (y, m, hy) = any-Memᴰ p xs later in (y, Memᴰ.tail m, hy)
  ]

  pub Memᴰ-any : (p : A → Bool) {x : A} {xs : List A} → Memᴰ x xs → p x ≡ true → any p xs ≡ true
  Memᴰ-any p {xs = []} m h = absurd (Memᴰ.not-nil m)
  Memᴰ-any p {xs = y ∷ ys} (Memᴰ.head e) h = or_true_left (any p ys) (ap p (sym e) ∙ h)
  Memᴰ-any p {xs = y ∷ ys} (Memᴰ.tail m) h = or_true_right (p y) (Memᴰ-any p m h)

  pub Memᴰ-keep : (p : A → Bool) {x : A} {xs : List A} → Memᴰ x xs → p x ≡ true → Memᴰ x (keep p xs)
  Memᴰ-keep p {xs = []} m h = absurd (Memᴰ.not-nil m)
  Memᴰ-keep p {xs = y ∷ ys} (Memᴰ.head e) h = rw (ap p (sym e) ∙ h) (Memᴰ.head e)
  Memᴰ-keep p {x = x} {xs = y ∷ ys} (Memᴰ.tail m) h = with_bit (p y) (Memᴰ-keep p m h)
    where
      with_bit : (b : Bool) → Memᴰ x (keep p ys) → Memᴰ x (if b then y ∷ keep p ys else keep p ys)
      with_bit true m = Memᴰ.tail m
      with_bit false m = m

  kept_from :
      (p : A → Bool) {x : A} (y : A) (ys : List A) (b : Bool)
      → b ≡ p y
      → (Memᴰ x (keep p ys) → Memᴰ x ys × (p x ≡ true))
      → Memᴰ x (if b then y ∷ keep p ys else keep p ys)
      → Memᴰ x (y ∷ ys) × (p x ≡ true)
  kept_from p y ys true e rest (Memᴰ.head h) = (Memᴰ.head h, ap p h ∙ sym e)
  kept_from p y ys true e rest (Memᴰ.tail m) = (Memᴰ.tail (rest m).0, (rest m).1)
  kept_from p y ys false e rest m = (Memᴰ.tail (rest m).0, (rest m).1)

  pub keep-Memᴰ :
      (p : A → Bool) {x : A} (xs : List A) → Memᴰ x (keep p xs) → Memᴰ x xs × (p x ≡ true)
  keep-Memᴰ p [] m = absurd (Memᴰ.not-nil m)
  keep-Memᴰ p (y ∷ ys) m = kept_from p y ys (p y) refl (keep-Memᴰ p ys) m
