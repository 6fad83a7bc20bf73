-- ===== src/Slice/Distinct.antt =====
-- Slices whose elements are pairwise different, under an equality test.
use abstruse.Prelude.{
  suc, ◌≤◌, ◌≡◌, refl, sym, ap, ◌∙◌, Bool, true, false, not, List, [], ◌∷◌, ◌++◌, some, arith,
  length, take, drop, keep, any, count, count-append, length-append, length-take_of_le,
  take-append_self, append_assoc, Bool-cases, inl, inr,
}
use abstruse.Slice.{Slice, view, append, remove_all}
use abstruse.Slice.Laws.{Fits, remove_all-keep}

module _ {ℓ} {A : Type ℓ} where
  count_of_any : (p : A → Bool) (l : List A) → any p l ≡ false → count p l ≡ 0
  count_of_any p [] h = refl
  count_of_any p (x ∷ l) h = ground (arith, count_of_any p l)

  count-keep-le : (p q : A → Bool) (l : List A) → count p (keep q l) ≤ count p l
  count-keep-le p q [] = omega arith
  count-keep-le p q (x ∷ l) = ground (arith, count-keep-le p q l)

  pub view-append : (s : Slice A) (x : A) → Fits s → view (append s x) ≡ view s ++ x ∷ []
  unfolding append
  view-append s x f =
      ap (λ l. take (suc s.len) l)
        (sym (append_assoc (view s) (x ∷ []) (drop (suc s.len) s.backing)))
      ∙ ap (λ n. take n ((view s ++ x ∷ []) ++ drop (suc s.len) s.backing)) size
      ∙ take-append_self (view s ++ x ∷ []) _
    where
      size : suc s.len ≡ length (view s ++ x ∷ [])
      size = omega (arith, length-append (view s) (x ∷ []), length-take_of_le s.len s.backing f)

  append-Fits : (s : Slice A) (x : A) → Fits s → Fits (append s x)
  unfolding append
  append-Fits s x f = omega (
    arith,
    length-append (view s) (x ∷ drop (suc s.len) s.backing),
    length-take_of_le s.len s.backing f,
  )

  -- No element stands twice.
  abbrev pub Distinct : (A → A → Bool) → List A → Type ℓ
  Distinct eq l = (a : A) → count (λ x. eq x a) l ≤ 1

  -- A slice within its array, of distinct elements.
  pub record IsSound (eq : A → A → Bool) (s : Slice A) : Type ℓ where
    pub fits : Fits s
    pub distinct : Distinct eq (view s)

module _ {ℓ} {A : Type ℓ} (eq : A → A → Bool) (sound : (a b : A) → eq a b ≡ true → a ≡ b) where
  Distinct-concat :
      (l : List A) (x : A) → Distinct eq l → any (λ y. eq y x) l ≡ false → Distinct eq (l ++ x ∷ [])
  Distinct-concat l x d h a = elim (Bool-cases (eq x a)) [
    | inl e ↦
        let new : count (λ y. eq y a) l ≡ 0 = count_of_any (λ y. eq y a) l (rw (← sound x a e) h) in
        rw (count-append (λ y. eq y a) l (x ∷ []), new, e) (omega arith)
    | inr e ↦ rw (count-append (λ y. eq y a) l (x ∷ []), e) (omega (arith, d a))
  ]

  pub append-IsSound :
      (s : Slice A) (x : A)
      → IsSound eq s
      → any (λ y. eq y x) (view s) ≡ false
      → IsSound eq (append s x)
  append-IsSound s x h new = record {
    fits = append-Fits s x h.fits;
    distinct = rw (view-append s x h.fits) (Distinct-concat (view s) x h.distinct new);
  }

  -- The removal loop for one element: no panic, just that element goes, and the rest stay distinct.
  pub remove_all-IsSound :
      (s : Slice A) (a : A)
      → IsSound eq s
      → (s' : Slice A) × (remove_all (λ x. eq x a) s ≡ some s')
        × (view s' ≡ keep (λ x. not (eq x a)) (view s))
        × IsSound eq s'
  remove_all-IsSound s a h =
      let (s', done, seen, room) = remove_all-keep (λ x. eq x a) s h.fits (h.distinct a) in
      (
        s',
        done,
        seen,
        record {
          fits = room;
          distinct = λ b. rw seen (
              omega
                (arith, count-keep-le (λ x. eq x b) (λ x. not (eq x a)) (view s), h.distinct b));
        },
      )
