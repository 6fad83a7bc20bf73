-- ===== src/Api/Teams/Reconciled.antt =====
-- The permissions of a team after an update, against the form's.
use mathlib.Core.Path.{ap₂}
use abstruse.Prelude.{
  ℕ, ◌≡◌, refl, sym, ap, ◌∙◌, Bool, true, false, not, ◌&&◌, Bool-cases, List, [], ◌∷◌, ◌++◌,
  append_assoc, map-append, keep-append, map, keep, any, All, All-append, Option, none, some, ◌==◌,
  ==_iff, ==-refl, ==-comm, if◌then◌else◌, ◌||◌, inl, inr, Result, Effect, and_run, ◌>>◌, ◌>>=◌, ok,
  arith,
}
use abstruse.Store.Database.{first}
use abstruse.Store.Teams.{
  PermissionRow, TeamTables, with_permissions, is_for, find_permission, update_permission,
  delete_permission, set_perms,
}
use abstruse.Api.Teams.{RepoPerm, match_repos, unless_updated, settle}

-- The form's entry for a repository.
abbrev pub entry : List RepoPerm → ℕ → Option RepoPerm
unfolding first
entry repos id = first (λ g. g.id == id) repos

-- No repository stands twice in the form.
abbrev pub DistinctRepos : List RepoPerm → Type 0
DistinctRepos [] = Unit
DistinctRepos (g ∷ gs) = (any (λ h. h.id == g.id) gs ≡ false) × DistinctRepos gs

-- Two rows have different keys, and are not both for one team and one repository.
abbrev pub Apart : PermissionRow → PermissionRow → Type 0
Apart x y = ((y.id == x.id) ≡ false) × (is_for x.team_id x.repository_id y ≡ false)

abbrev pub AllApart : List PermissionRow → Type 0
AllApart [] = Unit
AllApart (x ∷ xs) = All (Apart x) xs × AllApart xs

Apart-sym : (x y : PermissionRow) → Apart x y → Apart y x
unfolding is_for
Apart-sym x y (i, k) = (
  ==-comm x.id y.id ∙ i,
  ap₂ ◌&&◌ (==-comm x.team_id y.team_id) (==-comm x.repository_id y.repository_id) ∙ k,
)

-- What the update makes of a row of the team.
abbrev pub treated : Option RepoPerm → PermissionRow → List PermissionRow
treated none x = []
treated (some g) x = record x { perms = g.perms } ∷ []

module _ (x : PermissionRow) where
  map-Apart :
      (p : PermissionRow) (ys : List PermissionRow)
      → p.id ≡ x.id
      → All (Apart x) ys
      → map (set_perms p) ys ≡ ys
  map-Apart p [] e h = refl
  map-Apart p (y ∷ ys) e ((i, k), h) =
      ap₂ (λ z zs. z ∷ zs) (rw (ap (λ n. y.id == n) e ∙ i) refl) (map-Apart p ys e h)

  keep-Apart :
      (ys : List PermissionRow) → All (Apart x) ys → keep (λ row. not (row.id == x.id)) ys ≡ ys
  keep-Apart [] h = refl
  keep-Apart (y ∷ ys) ((i, k), h) = rw i (ap (◌∷◌ y) (keep-Apart ys h))

  first-Apart :
      (ys : List PermissionRow) (z : List PermissionRow)
      → All (Apart x) ys
      → first (is_for x.team_id x.repository_id) (ys ++ x ∷ z) ≡ some x
  unfolding first is_for
  first-Apart [] z h = ground arith
  first-Apart (y ∷ ys) z ((i, k), h) = rw k (first-Apart ys z h)

-- Where the form has no entry for the row's repository, the inner loop does nothing.
no_match :
    (team : ℕ) (p : PermissionRow) (repos : List RepoPerm) (u : Bool) (upd : List ℕ)
    (db : TeamTables)
    → any (λ h. h.id == p.repository_id) repos ≡ false
    → match_repos team p repos u upd db ≡ (ok (u, upd), db)
unfolding match_repos
no_match team p [] u upd db h = refl
no_match team p (g ∷ gs) u upd db h =
    let (now, later) = none_of (g.id == p.repository_id) h in
    rw (now, match_repos) (no_match team p gs u upd db later)
  where
    none_of :
        (b : Bool)
        → (b || any (λ h. h.id == p.repository_id) gs) ≡ false
        → (b ≡ false) × (any (λ h. h.id == p.repository_id) gs ≡ false)
    none_of true h = absurd (cc)
    none_of false h = (refl, h)

-- The tables after the inner loop, and what it answers.
abbrev matched :
    Option RepoPerm
    → PermissionRow
    → Bool
    → List ℕ
    → TeamTables
    → Result (Bool × List ℕ) × TeamTables
matched none p u upd db = (ok (u, upd), db)
matched (some g) p u upd db = (
  ok (true, upd ++ p.repository_id ∷ []),
  with_permissions db (map (set_perms (record p { perms = g.perms })) db.permissions),
)

match_repos-matched :
    (team : ℕ) (p : PermissionRow) (repos : List RepoPerm) (u : Bool) (upd : List ℕ)
    (db : TeamTables)
    → DistinctRepos repos
    → (find_permission team p.repository_id db).0 ≡ ok p
    → match_repos team p repos u upd db ≡ matched (entry repos p.repository_id) p u upd db
unfolding match_repos first update_permission
match_repos-matched team p [] u upd db d f = refl
match_repos-matched team p (g ∷ gs) u upd db (d, ds) f =
    elim (Bool-cases (g.id == p.repository_id)) [
      | inl now ↦
          rw (now, f, match_repos)
            (no_match team p gs true (upd ++ p.repository_id ∷ []) _
              (ap (λ n. any (λ h. h.id == n) gs) (sym ((==_iff _ _).0 now)) ∙ d))
      | inr other ↦ rw (other, match_repos) (match_repos-matched team p gs u upd db ds f)
    ]

abbrev pub touched : Option RepoPerm → PermissionRow → List ℕ → List ℕ
touched none x upd = upd
touched (some g) x upd = upd ++ x.repository_id ∷ []

-- What becomes of a row: those of other teams stay.
abbrev pub piece : ℕ → List RepoPerm → PermissionRow → List PermissionRow
piece team repos x = if x.team_id == team then treated (entry repos x.repository_id) x else x ∷ []

abbrev pub reconciled : ℕ → List RepoPerm → List PermissionRow → List PermissionRow
reconciled team repos [] = []
reconciled team repos (x ∷ xs) = piece team repos x ++ reconciled team repos xs

-- The keys that the loop has put into `updated`.
abbrev pub updated_by : ℕ → List RepoPerm → List PermissionRow → List ℕ → List ℕ
updated_by team repos [] upd = upd
updated_by team repos (x ∷ xs) upd =
    updated_by team repos xs
      (if x.team_id == team then touched (entry repos x.repository_id) x upd else upd)

piece-Apart :
    (team : ℕ) (repos : List RepoPerm) (x y : PermissionRow)
    → Apart y x
    → All (Apart y) (piece team repos x)
unfolding is_for
piece-Apart team repos x y h = by_piece (x.team_id == team) (entry repos x.repository_id)
  where
    by_piece : (b : Bool) (o : Option RepoPerm) → All (Apart y) (if b then treated o x else x ∷ [])
    by_piece true none = tt
    by_piece true (some g) = (h, tt)
    by_piece false o = (h, tt)

-- The rest of a round of the outer loop, after the inner one.
module _ (x : PermissionRow) (before after : List PermissionRow) where
  round_rest :
      {B : Type 0} (o : Option RepoPerm) (upd : List ℕ) (db : TeamTables)
      (k : List ℕ → Effect TeamTables B)
      → All (Apart x) before
      → All (Apart x) after
      → and_run
          (matched o x false upd (with_permissions db (before ++ x ∷ after)))
          (λ (u, upd). unless_updated x u >> k upd)
        ≡ k (touched o x upd) (with_permissions db (before ++ (treated o x ++ after)))
  unfolding delete_permission
  round_rest none upd db k hb ha =
      ap (λ rows. k upd (with_permissions db rows))
        (keep-append _ before (x ∷ after)
          ∙ ap₂ ◌++◌ (keep-Apart x before hb) (rw (==-refl x.id) (keep-Apart x after ha)))
  round_rest (some g) upd db k hb ha =
      ap (λ rows. k (upd ++ x.repository_id ∷ []) (with_permissions db rows))
        (map-append _ before (x ∷ after)
          ∙ ap₂ ◌++◌ (map-Apart x (record x { perms = g.perms }) before refl hb) (
              ap₂ (λ y ys. y ∷ ys) (rw (==-refl x.id) refl)
                (map-Apart x (record x { perms = g.perms }) after refl ha)))

module _ (team : ℕ) (repos : List RepoPerm) (distinct : DistinctRepos repos) (db : TeamTables) where
  -- One round of the outer loop, at a row that stands between rows with other keys.
  round :
      {B : Type 0} (x : PermissionRow) (before after : List PermissionRow) (upd : List ℕ)
      (k : List ℕ → Effect TeamTables B)
      → x.team_id ≡ team
      → All (Apart x) before
      → All (Apart x) after
      → (match_repos team x repos false upd >>= λ (u, upd). unless_updated x u >> k upd)
          (with_permissions db (before ++ x ∷ after))
        ≡ k
            (touched (entry repos x.repository_id) x upd)
            (with_permissions db (before ++ (treated (entry repos x.repository_id) x ++ after)))
  unfolding find_permission
  round x before after upd k own hb ha =
      ap (λ r. and_run r (λ (u, upd). unless_updated x u >> k upd))
        (match_repos-matched team x repos false upd (with_permissions db (before ++ x ∷ after))
          distinct
          (rw
            (ap (λ n. first (is_for n x.repository_id) (before ++ x ∷ after)) (sym own)
              ∙ first-Apart x before after hb)
            refl))
      ∙ round_rest x before after (entry repos x.repository_id) upd db k hb ha

  abbrev pub Between : List PermissionRow → List PermissionRow → Type 0
  Between before rest = AllApart rest × All (λ y. All (Apart y) before) rest

  Between-next :
      (x : PermissionRow) (before after : List PermissionRow)
      → Between before (x ∷ after)
      → Between (before ++ piece team repos x) after
  Between-next x before after ((apart, all), (now, cross)) = (all, both after apart cross)
    where
      both :
          (ys : List PermissionRow)
          → All (Apart x) ys
          → All (λ y. All (Apart y) before) ys
          → All (λ y. All (Apart y) (before ++ piece team repos x)) ys
      both [] h k = tt
      both (y ∷ ys) (h, hs) (k, ks) = (
        All-append (Apart y) before (piece team repos x) k
            (piece-Apart team repos x y (Apart-sym x y h)),
        both ys hs ks,
      )

  -- The outer loop makes the reference of the rows that are left.
  pub settle-reconciled :
      (rest before : List PermissionRow) (upd : List ℕ)
      → Between before rest
      → settle team repos
          (keep (λ p. p.team_id == team) rest)
          upd
          (with_permissions db (before ++ rest))
        ≡ (
          ok (updated_by team repos rest upd),
          with_permissions db (before ++ reconciled team repos rest),
        )
  unfolding settle
  settle-reconciled [] before upd h = refl
  settle-reconciled (x ∷ rest) before upd h = elim (Bool-cases (x.team_id == team)) [
    | inl own ↦
        let o = entry repos x.repository_id in
        let next : Between (before ++ treated o x) rest =
          rw own at (Between-next x before rest h) in
        rw own (
          round x before rest upd (settle team repos (keep (λ p. p.team_id == team) rest))
            ((==_iff _ _).0 own) h.1.0 h.0.0
          ∙ ap
              (λ rows.
                settle team repos (keep (λ p. p.team_id == team) rest) (touched o x upd)
                  (with_permissions db rows))
              (sym (append_assoc before (treated o x) rest))
          ∙ settle-reconciled rest (before ++ treated o x) (touched o x upd) next
          ∙ ap
              (λ rows.
                (ok (updated_by team repos rest (touched o x upd)), with_permissions db rows))
              (append_assoc before (treated o x) (reconciled team repos rest)))
    | inr other ↦
        let next : Between (before ++ x ∷ []) rest = rw other at (Between-next x before rest h) in
        rw other (
          ap
            (λ rows.
              settle team repos (keep (λ p. p.team_id == team) rest) upd (with_permissions db rows))
            (sym (append_assoc before (x ∷ []) rest))
          ∙ settle-reconciled rest (before ++ x ∷ []) upd next
          ∙ ap (λ rows. (ok (updated_by team repos rest upd), with_permissions db rows))
              (append_assoc before (x ∷ []) (reconciled team repos rest)))
  ]
