-- ===== src/Slice.antt =====
-- A Go slice: a backing array and a length. Removing an element by
-- `append(s[:i], s[i+1:]...)` shifts the elements behind it inside the same array, so a `range`
-- loop that is still reading that array sees the shifted elements.
pub mod Laws
pub mod Distinct
use abstruse.Prelude.{
  ℕ, zero, suc, ◌-◌, Bool, true, false, List, [], ◌∷◌, ◌++◌, Option, none, some, ltb, get_elem?,
  length, take, drop, if◌then◌else◌,
}

pub record Slice {ℓ} (A : Type ℓ) : Type ℓ where
  pub backing : List A
  pub len : ℕ

module _ {ℓ} {A : Type ℓ} where
  -- The elements that the slice holds.
  abbrev pub view : Slice A → List A
  view s = take s.len s.backing

  -- A slice with no spare capacity.
  abbrev pub of_list : List A → Slice A
  of_list xs = record { backing = xs; len = length xs }

  -- copy(arr[i:], arr[i+1:n])
  unfoldable pub copy_down : List A → ℕ → ℕ → List A
  copy_down (x ∷ xs) (suc i) (suc n) = x ∷ copy_down xs i n
  copy_down (x ∷ y ∷ xs) zero (suc (suc n)) = y ∷ copy_down (y ∷ xs) zero (suc n)
  copy_down xs i n = xs

  -- s = append(s[:i], s[i+1:]...); `none` is the panic of `s[i+1:]` past the length.
  unfoldable pub remove_at : Slice A → ℕ → Option (Slice A)
  remove_at s i =
      if ltb i s.len
      then some (record { backing = copy_down s.backing i s.len; len = s.len - 1 })
      else none

  abbrev pub holds_at : (A → Bool) → Option A → Bool
  holds_at p none = false
  holds_at p (some x) = p x

  -- for i, x := range s { if p(x) { s = append(s[:i], s[i+1:]...) } }
  -- The range is over the length at the start: `rounds` are left, and the next index is `i`.
  unfoldable pub remove_loop : (A → Bool) → ℕ → ℕ → Slice A → Option (Slice A)
  remove_loop p zero i s = some s
  remove_loop p (suc rounds) i s = elim (holds_at p (get_elem? s.backing i)) [
    | true ↦ elim (remove_at s i) [ none ↦ none | some s' ↦ remove_loop p rounds (suc i) s' ]
    | false ↦ remove_loop p rounds (suc i) s
  ]

  unfoldable pub remove_all : (A → Bool) → Slice A → Option (Slice A)
  unfolding remove_loop remove_at copy_down
  remove_all p s = remove_loop p s.len 0 s

  -- s = append(s, x). A full array is copied to a larger one, whose spare places nothing reads.
  unfoldable pub append : Slice A → A → Slice A
  append s x = record {
    backing = take s.len s.backing ++ x ∷ drop (suc s.len) s.backing;
    len = suc s.len;
  }
