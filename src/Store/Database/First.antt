-- ===== src/Store/Database/First.antt =====
-- What a query for one row gives, and what an update by key leaves alone.
use mathlib.Core.List.{Memᴰ}
use mathlib.Core.List.Memᴰ
use mathlib.Core.Path.{ap₂}
use abstruse.Prelude.{
  arith, ℕ, ◌≡◌, ◌⊎◌, inl, inr, refl, sym, ap, ◌∙◌, Bool, true, false, List, [], ◌∷◌, none, some,
  ◌==◌, ==_iff, if◌then◌else◌, Bool-cases, any,
}
use abstruse.Core.{Repository}
use abstruse.Store.Database.{first, update_id}

first_from :
    {A : Type 0} (p : A → Bool) (x : A) (xs : List A) (b : Bool) (y : A)
    → b ≡ p x
    → (first p xs ≡ some y → Memᴰ y xs × (p y ≡ true))
    → (if b then some x else first p xs) ≡ some y
    → Memᴰ y (x ∷ xs) × (p y ≡ true)
first_from p x xs true y e rest h =
    let same : x ≡ y = cc in (Memᴰ.head (sym same), ap p (sym same) ∙ sym e)
first_from p x xs false y e rest h = (Memᴰ.tail (rest h).0, (rest h).1)

-- The row found is in the table, and the condition holds of it.
pub first-Memᴰ :
    {A : Type 0} (p : A → Bool) (xs : List A) (y : A)
    → first p xs ≡ some y
    → Memᴰ y xs × (p y ≡ true)
unfolding first
first-Memᴰ p [] y h = absurd (cc)
first-Memᴰ p (x ∷ xs) y h = first_from p x xs (p x) y refl (first-Memᴰ p xs y) h

-- Where the condition holds of a row, one is found.
pub Memᴰ-first :
    {A : Type 0} (p : A → Bool) (y : A) (xs : List A)
    → Memᴰ y xs
    → p y ≡ true
    → (x : A) × (first p xs ≡ some x)
unfolding first
Memᴰ-first p y [] m h = absurd (Memᴰ.not-nil m)
Memᴰ-first p y (x ∷ xs) (Memᴰ.head e) h = (x, rw (ap p (sym e) ∙ h) refl)
Memᴰ-first p y (x ∷ xs) (Memᴰ.tail m) h = elim (Bool-cases (p x)) [
  | inl now ↦ (x, rw now refl)
  | inr later ↦ let (z, ez) = Memᴰ-first p y xs m h in (z, rw later ez)
]

-- No row is found exactly where the condition holds of none.
pub first-none : {A : Type 0} (p : A → Bool) (xs : List A) → first p xs ≡ none → any p xs ≡ false
unfolding first
first-none p [] h = refl
first-none p (x ∷ xs) h = ground (arith, first-none p xs)

pub update_id_same :
    (id : ℕ) (f : Repository → Repository) (rows : List Repository)
    → ((r : Repository) → Memᴰ r rows → r.id ≡ id → f r ≡ r)
    → update_id id f rows ≡ rows
unfolding update_id
update_id_same id f [] h = refl
update_id_same id f (r ∷ rows) h =
    ap₂ (λ q qs. q ∷ qs) (kept (Bool-cases (r.id == id)))
      (update_id_same id f rows (λ q m. h q (Memᴰ.tail m)))
  where
    kept : (r.id == id) ≡ true ⊎ (r.id == id) ≡ false → (if r.id == id then f r else r) ≡ r
    kept (inl at) = rw at (h r (Memᴰ.head refl) ((==_iff _ _).0 at))
    kept (inr other) = rw other refl
