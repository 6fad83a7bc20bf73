-- ===== src/Store/Repos/Unique.antt =====
-- `CreateOrUpdate` of server/store/repo/repo.go: a repository is stored once, and never changed.
use mathlib.Core.List.{Memᴰ}
use mathlib.Core.List.Memᴰ
use mathlib.Core.Bool.{true≢false}
use abstruse.Prelude.{
  ℕ, ◌≡◌, ◌<◌, inl, inr, refl, sym, ap, ◌∙◌, subst, arith, String, Bool, true, false, List, [], ◌∷◌,
  ◌++◌, some, any, Memᴰ-any, ◌||◌, ◌+◌, str_eq, eq_iff, ◌==◌, ==_iff, both_true, and_true,
  Option-cases, Bool-cases, if◌then◌else◌,
}
use abstruse.Core.{Repository}
use abstruse.Store.Database.{Database, first}
use abstruse.Store.Database.First.{first-Memᴰ, first-none, update_id_same}
use abstruse.Store.Repos.{same_key, put, create, create_or_update}

-- Every row is the only one with its provider's id and clone address, and the only one with its key;
-- keys below the next one are taken.
abbrev pub Alone : ℕ → List Repository → Type 0
Alone n [] = Unit
Alone n (r ∷ rs) =
    (r.id < n) × (any (same_key r) rs ≡ false) × (any (λ q. q.id == r.id) rs ≡ false) × Alone n rs

abbrev pub Unique : Database → Type 0
Unique db = Alone db.next_id db.repositories

excluded :
    {A : Type 0} (p : A → Bool) (xs : List A) (x : A)
    → Memᴰ x xs
    → any p xs ≡ false
    → p x ≡ true
    → ⊥
excluded p xs x m none_such h = true≢false (sym (Memᴰ-any p m h) ∙ none_such)

neither : (a b : Bool) → (a || b) ≡ false → (a ≡ false) × (b ≡ false)
neither true b h = absurd (cc)
neither false b h = (refl, h)

none_of : {a b : Bool} → a ≡ false → b ≡ false → (a || b) ≡ false
none_of h k = rw (h, k) refl

ne : (new r : Repository) {n : ℕ} → r.id < n → new.id ≡ n → (new.id == r.id) ≡ false
ne new r lt e = ground (arith, e)

-- Rows with one key are one row.
pub Alone-id :
    (n : ℕ) (rs : List Repository) (r q : Repository)
    → Alone n rs
    → Memᴰ r rs
    → Memᴰ q rs
    → r.id ≡ q.id
    → r ≡ q
Alone-id n [] r q h mr mq e = absurd (Memᴰ.not-nil mr)
Alone-id n (x ∷ rs) r q h (Memᴰ.head er) (Memᴰ.head eq) e = er ∙ sym eq
Alone-id n (x ∷ rs) r q h (Memᴰ.head er) (Memᴰ.tail mq) e =
    absurd (excluded (λ q. q.id == x.id) rs q mq h.2 ((==_iff _ _).1 (sym e ∙ ap (λ y. y.id) er)))
Alone-id n (x ∷ rs) r q h (Memᴰ.tail mr) (Memᴰ.head eq) e =
    absurd (excluded (λ q. q.id == x.id) rs r mr h.2 ((==_iff _ _).1 (e ∙ ap (λ y. y.id) eq)))
Alone-id n (x ∷ rs) r q h (Memᴰ.tail mr) (Memᴰ.tail mq) e = Alone-id n rs r q h.3 mr mq e

pub any-append :
    {A : Type 0} (p : A → Bool) (xs ys : List A) → any p (xs ++ ys) ≡ (any p xs || any p ys)
any-append p [] ys = refl
any-append p (x ∷ xs) ys = ground (arith, any-append p xs ys)

str_eq_comm : (s t : String) → str_eq s t ≡ true → str_eq t s ≡ true
str_eq_comm s t h = (eq_iff t s).1 (sym ((eq_iff s t).0 h))

same_key_comm : (r q : Repository) → same_key r q ≡ true → same_key q r ≡ true
unfolding same_key
same_key_comm r q h =
    let (uid, clone) = both_true (str_eq q.uid r.uid) _ h in
    and_true (str_eq_comm q.uid r.uid uid) (str_eq_comm q.clone r.clone clone)

same_key-false : (r q : Repository) → same_key r q ≡ false → same_key q r ≡ false
same_key-false r q h = elim (Bool-cases (same_key q r)) [
  | inl same ↦ absurd (true≢false (sym (same_key_comm q r same) ∙ h))
  | inr other ↦ other
]

-- A new row with the next key, whose provider's id and clone address no row has.
Alone-append :
    (n : ℕ) (rs : List Repository) (new : Repository)
    → Alone n rs
    → new.id ≡ n
    → any (same_key new) rs ≡ false
    → Alone (n + 1) (rs ++ new ∷ [])
Alone-append n [] new h e k = (omega (arith, e), refl, refl, tt)
Alone-append n (r ∷ rs) new (lt, keys, ids, h) e k =
    let (other, others) = neither (same_key new r) _ k in
    (
      omega arith,
      any-append (same_key r) rs (new ∷ [])
          ∙ none_of keys (none_of (same_key-false new r other) refl),
      any-append (λ q. q.id == r.id) rs (new ∷ []) ∙ none_of ids (none_of (ne new r lt e) refl),
      Alone-append n rs new h e others,
    )

create-Unique :
    (db : Database) (repo : Repository)
    → Unique db
    → any (same_key repo) db.repositories ≡ false
    → Unique (create db repo)
unfolding create same_key
create-Unique db repo h k = Alone-append db.next_id db.repositories _ h refl k

-- A repository that the table has is left as it is, and the rest of the table with it.
pub create_or_update_found :
    (db : Database) (repo row : Repository)
    → Unique db
    → first (same_key repo) db.repositories ≡ some row
    → create_or_update db repo ≡ db
unfolding create_or_update
create_or_update_found db repo row h e =
    let f = λ (r : Repository). if same_key repo r then row else r in
    let (m, _) = first-Memᴰ (same_key repo) db.repositories row e in
    ap (put db repo) e
    ∙ (ap (λ rs. record db { repositories = rs })
        (update_id_same row.id f db.repositories (λ r mr er.
          let same = Alone-id db.next_id db.repositories r row h mr m er in
          either (same_key repo r) same)))
  where
    either : {r row : Repository} (b : Bool) → r ≡ row → (if b then row else r) ≡ r
    either true e = sym e
    either false e = refl

pub create_or_update-Unique :
    (db : Database) (repo : Repository) → Unique db → Unique (create_or_update db repo)
unfolding create_or_update
create_or_update-Unique db repo h = elim (Option-cases (first (same_key repo) db.repositories)) [
  | inl e ↦
      subst Unique (sym (ap (put db repo) e))
        (create-Unique db repo h (first-none (same_key repo) db.repositories e))
  | inr (row, e) ↦ subst Unique (sym (create_or_update_found db repo row h e)) h
]
