-- ===== src/Store/Users/Logins.antt =====
-- What a login and a change of the password ask for.
use abstruse.Prelude.{
  ℕ, String, ◌≡◌, refl, ap, ◌↔◌, Bool, true, false, not, Option, none, some, Result, ok, err, panic,
  Effect, and_run-ok, raise_if, ◌>>◌, reading-ok,
}
use abstruse.Store.Users.{
  User, Outside, answered, humanized, hash_password, check_password_hash, find, update,
  update_password, login,
}

answered-ok : {A : Type 0} (r : A × Option String) {a : A} → answered r ≡ ok a → r ≡ (a, none)
answered-ok (x, none) h = cc
answered-ok (x, some e) h = absurd (cc)

humanized-ok :
    {S A : Type 0} (r : Result A × S) {a : A} {t : S} → humanized r ≡ (ok a, t) → r ≡ (ok a, t)
humanized-ok (ok x, s) h = h
humanized-ok (err e, s) h = absurd (cc)
humanized-ok (panic, s) h = absurd (cc)

raise_unless-ok :
    {S A : Type 0} (b : Bool) (e : String) (m : Effect S A) (s : S) {a : A} {t : S}
    → (raise_if (not b) e >> m) s ≡ (ok a, t)
    → (b ≡ true) × (m s ≡ (ok a, t))
raise_unless-ok true e m s h = (refl, h)
raise_unless-ok false e m s h = absurd (cc)

raise_unless-fails :
    {S A : Type 0} (b : Bool) (e : String) (m : Effect S A) (s : S)
    → b ≡ false
    → (raise_if (not b) e >> m) s ≡ (err e, s)
raise_unless-fails b e m s h = rw h refl

module _ {S : Type 0} (outside : Outside S) where
  -- A login succeeds exactly if the user is found and bcrypt takes the password for the stored hash.
  pub login_iff :
      (email password : String) (s : S)
      → (login outside email password s ≡ true) ↔ (
          ((outside.by_name email s).1 ≡ none)
          × (check_password_hash outside password (outside.by_name email s).0.password ≡ true))
  unfolding login
  login_iff email password s = by_error (outside.by_name email s).1
    where
      by_error :
          (e : Option String)
          → (elim e [
            | none ↦ check_password_hash outside password (outside.by_name email s).0.password
            | some _ ↦ false
          ]
              ≡ true)
            ↔ ((e ≡ none)
                × (check_password_hash outside password (outside.by_name email s).0.password
                    ≡ true))
      by_error none = (λ h. (refl, h), λ h. h.1)
      by_error (some e) = (λ h. absurd (cc), λ h. absurd (cc))

  -- What changed a user's password from the state `s` to `t`.
  abbrev pub Changes : ℕ → String → String → S → Unit {0} → S → Type 0
  Changes id curr password s u t =
      (user : User) × (hash : String) × (s1 : S) × (outside.by_id id s ≡ (user, none))
      × (check_password_hash outside curr user.password ≡ true)
      × (outside.generate password outside.default_cost s ≡ (ok hash, s1))
      × (outside.updates (record user { password = hash }) s1 ≡ (ok u, t))

  -- A change of a password that succeeds has found the user, has found the current password to match the
  -- stored hash, has hashed the new password with bcrypt's default cost, and has written this user with
  -- the new hash and nothing else.
  pub update_password-Changes :
      (id : ℕ) (curr password : String) (s : S) {u : Unit {0}} {t : S}
      → update_password outside id curr password s ≡ (ok u, t)
      → Changes id curr password s u t
  unfolding update_password find update hash_password
  update_password-Changes id curr password s h =
      let (user, found, h1) = reading-ok (find outside id) _ (λ _. refl) s h in
      let (checked, h2) = raise_unless-ok _ _ _ s h1 in
      let (hash, s1, made, h3) =
        and_run-ok (outside.generate password outside.default_cost s) _ h2 in
      (user, hash, s1, answered-ok _ (ap (λ r. r.0) found), checked, made, humanized-ok _ h3)

  -- With another current password nothing is written.
  update_password-refused :
      (id : ℕ) (curr password : String) (s : S) (user : User)
      → outside.by_id id s ≡ (user, none)
      → check_password_hash outside curr user.password ≡ false
      → update_password outside id curr password s ≡ (err "invalid current password", s)
  unfolding update_password find
  update_password-refused id curr password s user found wrong =
      rw found (raise_unless-fails _ _ _ s wrong)
