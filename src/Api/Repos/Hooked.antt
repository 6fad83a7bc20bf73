-- ===== src/Api/Repos/Hooked.antt =====
-- What the handlers of server/api/repo and server/api/build that show something change, and who creates
-- webhooks.
use abstruse.Prelude.{ℕ, ◌≡◌, inr, true, Result, ok}
use abstruse.Gitscm.{HookForm}
use abstruse.Api.Answer.Spared.{Spares, or_render-Spares, permitted-Spares}
use abstruse.Api.Repos.{RepoBackend, created_hooks, handle_create_hooks}

module _ {S : Type 0} (backend : RepoBackend S) where
  -- The address names a repository that the user may write to, and the body is a form.
  handle_create_hooks-Spares :
      (address : Result ℕ) (user : ℕ) (body : Result HookForm) (s : S)
      → Spares (handle_create_hooks backend address user body) s (
          (id : ℕ) × (f : HookForm) × (address ≡ ok id)
          × (body ≡ ok f)
          × ((backend.permissions id user s).write ≡ true))
  unfolding handle_create_hooks
  handle_create_hooks-Spares address user body s = or_render-Spares _ _ address _ s (λ id a.
      or_render-Spares _ _ body _ s (λ f b.
        permitted-Spares _ _ (created_hooks backend id user f) s (λ p. inr (id, f, a, b, p))))
