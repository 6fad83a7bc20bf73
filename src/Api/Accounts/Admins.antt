-- ===== src/Api/Accounts/Admins.antt =====
-- What only an admin changes, and only the owner of a provider.
use abstruse.Prelude.{
  ℕ, ◌≡◌, ◌⊎◌, inl, inr, refl, String, Bool, true, false, Result, ok, either_true, ==_iff, str_eq,
  eq_iff,
}
use abstruse.Store.Teams.{TeamTables, find_user}
use abstruse.Store.Users.{Outside, find}
use abstruse.Auth.Claims.{UserClaims}
use abstruse.Api.Answer.{Body, form, crashed, Handler}
use abstruse.Api.Answer.Spared.{Spares, with_body-Spares, or_render-Spares, only_admin-Spares}
use abstruse.Api.Accounts
use abstruse.Api.Accounts.{UserForm}
use abstruse.Api.Teams
use abstruse.Api.Teams.{TeamForm}
use abstruse.Api.Providers
use abstruse.Api.Providers.{ProviderForm, ProviderFields, ProviderBackend, or_crash, may_change}

weaken : {A P Q : Type 0} → (P → Q) → A ⊎ P → A ⊎ Q
weaken f (inl a) = inl a
weaken f (inr p) = inr (f p)

or_crash-Spares :
    {S A : Type 0} (P : Type 0) (b : Bool) (h : Handler S A) (s : S)
    → (b ≡ true → Spares h s P)
    → Spares (or_crash b h) s P
or_crash-Spares P true h s k = k refl
or_crash-Spares P false h s k = inl refl

module _ {S : Type 0} (backend : ProviderBackend S) where
  -- The user is the owner of the provider, or an admin.
  abbrev pub MayChange : ℕ → ℕ → S → Type 0
  MayChange user id s =
      (role : String) × (p : ProviderFields) × (backend.role user s ≡ ok role)
      × (backend.find id s ≡ ok p)
      × ((p.user_id ≡ user) ⊎ (role ≡ "admin"))

  for_changer-Spares :
      {A : Type 0} (user id : ℕ) (h : ProviderFields → Handler S A) (s : S)
      → Spares (Providers.for_changer backend user id h) s (MayChange user id s)
  unfolding Providers.for_changer may_change
  for_changer-Spares user id h s = or_render-Spares _ _ (backend.role user s) _ s (λ role er.
      or_render-Spares _ _ (backend.find id s) _ s (λ p ep.
        or_crash-Spares _ (may_change user role p) (h p) s (λ may. inr (
          role,
          p,
          er,
          ep,
          elim (either_true _ _ may) [
            | inl own ↦ inl ((==_iff _ _).0 own)
            | inr admin ↦ inr ((eq_iff role "admin").0 admin)
          ],
        ))))

  providers-Spares :
      (user : ℕ) (body : Body ProviderForm) (address : Result ℕ) (s : S)
      → Spares
          (Providers.handle_update backend user body)
          s
          ((f : ProviderForm) × (body ≡ form f) × MayChange user f.id s)
        × Spares
            (Providers.handle_delete backend user address)
            s
            ((id : ℕ) × (address ≡ ok id) × MayChange user id s)
  unfolding Providers.handle_update Providers.handle_delete
  providers-Spares user body address s = (
    with_body-Spares _ body _ s (λ f e. weaken (λ m. (f, e, m)) (for_changer-Spares user f.id _ s)),
    or_render-Spares _ _ address _ s
        (λ id e. weaken (λ m. (id, e, m)) (for_changer-Spares user id _ s)),
  )

-- Whatever the request is: creating and updating a team or a user changes nothing unless the user who asks
-- is an admin; updating and deleting a provider changes nothing unless the user who asks is an admin or
-- its owner.
pub handle-AdminOnly :
    {S : Type 0} (outside : Outside S) (sign : UserClaims → Result String) (user : ℕ)
    (backend : ProviderBackend S) (team : Body TeamForm) (account : Body UserForm)
    (body : Body ProviderForm) (address : Result ℕ) (db : TeamTables) (s : S)
    → Spares (Teams.handle_create user team) db (Teams.role_of (find_user user db).0 ≡ ok "admin")
      × Spares (Teams.handle_update user team) db (Teams.role_of (find_user user db).0 ≡ ok "admin")
      × Spares
          (Accounts.handle_create outside sign user account)
          s
          (Accounts.role_of (find outside user s).0 ≡ ok "admin")
      × Spares
          (Accounts.handle_update outside sign user account)
          s
          (Accounts.role_of (find outside user s).0 ≡ ok "admin")
      × Spares
          (Providers.handle_update backend user body)
          s
          ((f : ProviderForm) × (body ≡ form f) × MayChange backend user f.id s)
      × Spares
          (Providers.handle_delete backend user address)
          s
          ((id : ℕ) × (address ≡ ok id) × MayChange backend user id s)
unfolding Teams.handle_create Teams.handle_update Accounts.handle_create Accounts.handle_update
handle-AdminOnly outside sign user backend team account body address db s = (
  only_admin-Spares _ (Teams.role_of (find_user user db).0) _ db inr,
  only_admin-Spares _ (Teams.role_of (find_user user db).0) _ db inr,
  only_admin-Spares _ (Accounts.role_of (find outside user s).0) _ s inr,
  only_admin-Spares _ (Accounts.role_of (find outside user s).0) _ s inr,
  (providers-Spares backend user body address s).0,
  (providers-Spares backend user body address s).1,
)

-- A user who is found and is not an admin makes these four handlers panic: they ask for the text of an
-- error that is nil.
handle-Crashes :
    {S : Type 0} (outside : Outside S) (sign : UserClaims → Result String) (user : ℕ)
    (team : Body TeamForm) (account : Body UserForm) (db : TeamTables) (s : S) (role role' : String)
    → Teams.role_of (find_user user db).0 ≡ ok role
    → Accounts.role_of (find outside user s).0 ≡ ok role'
    → str_eq role "admin" ≡ false
    → str_eq role' "admin" ≡ false
    → (Teams.handle_create user team db ≡ (crashed, db))
      × (Teams.handle_update user team db ≡ (crashed, db))
      × (Accounts.handle_create outside sign user account s ≡ (crashed, s))
      × (Accounts.handle_update outside sign user account s ≡ (crashed, s))
unfolding Teams.handle_create Teams.handle_update Accounts.handle_create Accounts.handle_update
handle-Crashes outside sign user team account db s role role' e e' n n' =
    (rw e (rw n refl), rw e (rw n refl), rw e' (rw n' refl), rw e' (rw n' refl))
