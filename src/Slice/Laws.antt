-- ===== src/Slice/Laws.antt =====
-- When the in-place removal of a range loop is right: where at most one element passes the test.
use abstruse.Prelude.{
  ℕ, zero, suc, ◌+◌, ◌-◌, ◌<◌, ◌≤◌, ◌≡◌, refl, ap, ◌∙◌, sym, Bool, true, false, not, List, [], ◌∷◌,
  ◌++◌, some, arith, get_elem?, length, take, drop, keep, count, All, All-append, Bool-cases, ◌⊎◌,
  inl, inr, length-append, length-take_of_le, take-append_self, take-append-drop, append_assoc,
  lt→ltb,
}
use abstruse.Slice.{Slice, view, copy_down, remove_at, remove_loop, remove_all}

-- The length is within the backing array.
abbrev pub Fits {ℓ} : {A : Type ℓ} → Slice A → Type 0
Fits s = s.len ≤ length s.backing

abbrev pub Misses {ℓ} : {A : Type ℓ} → (A → Bool) → List A → Type 0
Misses p = All (λ x. p x ≡ false)

module _ {ℓ} {A : Type ℓ} where
  get_elem?_of_drop :
      (b : List A) (i : ℕ) {x : A} {r : List A}
      → drop i b ≡ x ∷ r
      → (get_elem? b i ≡ some x) × (drop (suc i) b ≡ r)
  get_elem?_of_drop [] zero e = cc
  get_elem?_of_drop [] (suc i) e = cc
  get_elem?_of_drop (y ∷ b) zero e = (cc, cc)
  get_elem?_of_drop (y ∷ b) (suc i) e = get_elem?_of_drop b i e

  -- The element that a removal leaves behind the new end.
  stale : A → List A → A
  stale t [] = t
  stale t (y ∷ ys) = stale y ys

  copy_down_head :
      (t : A) (ys zs : List A)
      → copy_down (t ∷ ys ++ zs) 0 (suc (length ys)) ≡ ys ++ stale t ys ∷ zs
  unfolding copy_down stale
  copy_down_head t [] [] = refl
  copy_down_head t [] (z ∷ zs) = refl
  copy_down_head t (y ∷ ys) zs = ap (◌∷◌ y) (copy_down_head y ys zs)

  copy_down-append :
      (xs : List A) (t : A) (ys zs : List A)
      → copy_down (xs ++ t ∷ ys ++ zs) (length xs) (length (xs ++ t ∷ ys))
        ≡ xs ++ ys ++ stale t ys ∷ zs
  unfolding copy_down
  copy_down-append [] t ys zs = copy_down_head t ys zs
  copy_down-append (x ∷ xs) t ys zs = ap (◌∷◌ x) (copy_down-append xs t ys zs)

module _ {ℓ} {A : Type ℓ} (p : A → Bool) where
  Misses-stale : (t : A) (y : A) (ys : List A) → Misses p (y ∷ ys) → p (stale t (y ∷ ys)) ≡ false
  unfolding stale
  Misses-stale t y [] h = h.0
  Misses-stale t y (z ∷ ys) h = Misses-stale y z ys h.1

  step_miss :
      (n i : ℕ) (s : Slice A) {x : A}
      → get_elem? s.backing i ≡ some x
      → p x ≡ false
      → remove_loop p (suc n) i s ≡ remove_loop p n (suc i) s
  unfolding remove_loop
  step_miss n i s g h = ground arith

  step_hit :
      (n i : ℕ) (s : Slice A) {x : A}
      → get_elem? s.backing i ≡ some x
      → p x ≡ true
      → i < s.len
      → remove_loop p (suc n) i s
        ≡ remove_loop p n
            (suc i)
            (record { backing = copy_down s.backing i s.len; len = s.len - 1 })
  unfolding remove_loop remove_at
  step_hit n i s g h lt = ground (arith, lt→ltb i s.len lt)

  -- Rounds over elements that miss change nothing.
  loop_miss :
      (xs l r : List A) (i j : ℕ) (s : Slice A)
      → i + length xs ≡ j
      → drop i s.backing ≡ xs ++ r
      → Misses p xs
      → (remove_loop p (length (xs ++ l)) i s ≡ remove_loop p (length l) j s)
        × (drop j s.backing ≡ r)
  loop_miss [] l r i j s q e h = let q' : i ≡ j = omega arith in rw (← q') (refl, e)
  loop_miss (x ∷ xs) l r i j s q e (hx, h) =
      let (g, d) = get_elem?_of_drop s.backing i e in
      let (same, rest) = loop_miss xs l r (suc i) j s (omega arith) d h in
      (step_miss (length (xs ++ l)) i s g hx ∙ same, rest)

  loop_all_miss :
      (xs r : List A) (i : ℕ) (s : Slice A)
      → drop i s.backing ≡ xs ++ r
      → Misses p xs
      → remove_loop p (length xs) i s ≡ some s
  unfolding remove_loop
  loop_all_miss [] r i s e h = refl
  loop_all_miss (x ∷ xs) r i s e (hx, h) =
      let (g, d) = get_elem?_of_drop s.backing i e in
      step_miss (length xs) i s g hx ∙ loop_all_miss xs r (suc i) s d h

  drop-suc-append : (xs : List A) (y : A) (r : List A) → drop (suc (length xs)) (xs ++ y ∷ r) ≡ r
  drop-suc-append [] y r = refl
  drop-suc-append (x ∷ xs) y r = drop-suc-append xs y r

  -- The rounds behind the removed element read elements that miss, the stale one among them.
  loop_behind :
      (xs : List A) (t : A) (ys zs : List A) (s : Slice A)
      → s.backing ≡ xs ++ ys ++ stale t ys ∷ zs
      → Misses p ys
      → remove_loop p (length ys) (suc (length xs)) s ≡ some s
  unfolding remove_loop
  loop_behind xs t [] zs s e h = refl
  loop_behind xs t (y ∷ ys) zs s e (hy, h) =
      let last = stale t (y ∷ ys) in
      let seen : drop (suc (length xs)) s.backing ≡ (ys ++ last ∷ []) ++ zs =
        ap (drop (suc (length xs))) (e ∙ append_assoc xs (y ∷ ys) (last ∷ zs))
        ∙ drop-suc-append xs y (ys ++ last ∷ zs)
        ∙ sym (append_assoc ys (last ∷ []) zs) in
      let rounds : length (ys ++ last ∷ []) ≡ suc (length ys) =
        omega (arith, length-append ys (last ∷ [])) in
      rw rounds at (
        loop_all_miss (ys ++ last ∷ []) zs (suc (length xs)) s seen
          (All-append (λ x. p x ≡ false) ys (last ∷ []) h (Misses-stale t y ys (hy, h), tt)))

  -- Exactly one element passes the test: it alone is removed.
  remove_all_one :
      (xs : List A) (t : A) (ys : List A) (s : Slice A)
      → Fits s
      → view s ≡ xs ++ t ∷ ys
      → Misses p xs
      → p t ≡ true
      → Misses p ys
      → (s' : Slice A) × (remove_all p s ≡ some s') × (view s' ≡ xs ++ ys) × Fits s'
  unfolding remove_all
  remove_all_one xs t ys s fits v hx ht hy = (s', done, seen, room)
    where
      zs : List A
      zs = drop s.len s.backing

      whole : s.backing ≡ (xs ++ t ∷ ys) ++ zs
      whole = sym (take-append-drop s.len s.backing) ∙ ap (λ l. l ++ zs) v

      size : s.len ≡ length (xs ++ t ∷ ys)
      size = sym (length-take_of_le s.len s.backing fits) ∙ ap length v

      sizes : (s.len ≡ length xs + suc (length ys)) × (s.len - 1 ≡ length (xs ++ ys))
      sizes = omega (arith, size, length-append xs (t ∷ ys), length-append xs ys)

      s' : Slice A
      s' = record { backing = copy_down s.backing (length xs) s.len; len = s.len - 1 }

      shifted : s'.backing ≡ (xs ++ ys) ++ stale t ys ∷ zs
      shifted = (λ i. copy_down (whole i) (length xs) (size i)) ∙ copy_down-append xs t ys zs

      done : remove_loop p s.len 0 s ≡ some s'
      done =
          let (before, rest) =
            loop_miss xs (t ∷ ys) (t ∷ ys ++ zs) 0 (length xs) s (omega arith)
              (whole ∙ append_assoc xs (t ∷ ys) zs) hx in
          (λ i. remove_loop p (size i) 0 s)
          ∙ before
          ∙ step_hit (length ys) (length xs) s (get_elem?_of_drop s.backing (length xs) rest).0 ht
              (omega (arith, sizes.0))
          ∙ loop_behind xs t ys zs s' shifted hy

      seen : view s' ≡ xs ++ ys
      seen = (λ i. take (sizes.1 i) (shifted i)) ∙ take-append_self (xs ++ ys) (stale t ys ∷ zs)

      room : Fits s'
      room = omega (arith, sizes.1, ap length shifted, length-append (xs ++ ys) (stale t ys ∷ zs))

  Misses-of_count : (l : List A) → count p l ≤ 0 → Misses p l
  Misses-of_count [] h = tt
  Misses-of_count (x ∷ l) h = ground (arith, Misses-of_count l)

  split_one :
      (l : List A)
      → count p l ≤ 1
      → Misses p l
        ⊎ ((xs : List A) × (t : A) × (ys : List A) × (l ≡ xs ++ t ∷ ys)
            × Misses p xs
            × (p t ≡ true)
            × Misses p ys)
  split_one [] h = inl tt
  split_one (x ∷ l) h = elim (Bool-cases (p x)) [
    | inl e ↦ inr ([], x, l, refl, tt, e, Misses-of_count l (ground arith))
    | inr e ↦ elim (split_one l (ground arith)) [
      | inl m ↦ inl (e, m)
      | inr (xs, t, ys, q, mx, ht, my) ↦ inr (x ∷ xs, t, ys, ap (◌∷◌ x) q, (e, mx), ht, my)
    ]
  ]

  keep-miss : (l : List A) → Misses p l → keep (λ x. not (p x)) l ≡ l
  keep-miss [] h = refl
  keep-miss (x ∷ l) (hx, h) = rw (hx, keep-miss l h)

  kept :
      (xs : List A) (t : A) (ys : List A)
      → Misses p xs
      → p t ≡ true
      → Misses p ys
      → keep (λ x. not (p x)) (xs ++ t ∷ ys) ≡ xs ++ ys
  kept [] t ys hx ht hy = rw ht (keep-miss ys hy)
  kept (x ∷ xs) t ys (h, hx) ht hy = rw h (ap (◌∷◌ x) (kept xs t ys hx ht hy))

  none_hit : (s : Slice A) → Fits s → Misses p (view s) → remove_all p s ≡ some s
  unfolding remove_all
  none_hit s fits m =
      ap (λ n. remove_loop p n 0 s) (sym (length-take_of_le s.len s.backing fits))
      ∙ loop_all_miss (view s) (drop s.len s.backing) 0 s (sym (take-append-drop s.len s.backing)) m

  -- The loop is right where at most one element passes: it does not panic, and removes just that.
  pub remove_all-keep :
      (s : Slice A)
      → Fits s
      → count p (view s) ≤ 1
      → (s' : Slice A) × (remove_all p s ≡ some s')
        × (view s' ≡ keep (λ x. not (p x)) (view s))
        × Fits s'
  remove_all-keep s fits h = elim (split_one (view s) h) [
    | inl m ↦ (s, none_hit s fits m, sym (keep-miss (view s) m), fits)
    | inr (xs, t, ys, v, hx, ht, hy) ↦
        let (s', done, seen, room) = remove_all_one xs t ys s fits v hx ht hy in
        (s', done, seen ∙ sym (ap (keep (λ x. not (p x))) v ∙ kept xs t ys hx ht hy), room)
  ]
