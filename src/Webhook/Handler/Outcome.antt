-- ===== src/Webhook/Handler/Outcome.antt =====
-- What a webhook can do, in server/api/webhook/hook.go.
use abstruse.Prelude.{
  String, ◌≡◌, ◌≢◌, ◌⊎◌, inl, inr, refl, sym, ◌∙◌, true, false, not, ◌&&◌, none, some, str_eq,
  eq_iff, Bool-cases, if◌then◌else◌,
}
use abstruse.Core.{Repository, GitHook}
use abstruse.Webhook.Scm.{open_pr, sync}
use abstruse.Webhook.GitHook.{Accepts}
use abstruse.Webhook.Events.{event_push, event_pull_request, action_delete, action_close}
use abstruse.Webhook.GitHook.Accepted.{Announces}
use abstruse.Webhook.Handler.{Clients, Stores, Response, ok, trigger, found}

differs : (a b : String) → a ≢ b → str_eq a b ≡ false
differs a b ne = elim (Bool-cases (str_eq a b)) [
  | inl q ↦ absurd (ne ((eq_iff a b).0 q))
  | inr q ↦ q
]

module _ {R S : Type 0} (clients : Clients R) (stores : Stores S) where
  -- Nothing outside has changed, or a build was triggered, once, for an active repository that was
  -- found by the UID of an accepted hook, and that gave the answer.
  abbrev pub Outcome : S → S × Response → Type 0
  Outcome s r =
      (r.0 ≡ s)
      ⊎ ((repo : Repository) × (hook : GitHook) × (uid : String) × (repo.active ≡ true)
          × (stores.find_uid uid s ≡ some repo)
          × Announces clients.action_string hook
          × (r ≡ trigger clients stores repo hook s))

  abbrev Known : Accepts → Type 0
  Known none = Unit {0}
  Known (some (h, r)) = Announces clients.action_string h

  found_go :
      (repo : Repository) (h : GitHook) (rest : S × Response) (s : S)
      → (str_eq h.event event_push && str_eq h.action action_delete) ≡ false
      → (str_eq h.event event_pull_request && str_eq h.action action_close) ≡ false
      → found clients stores (some repo) h rest s
        ≡ (if not repo.active then (s, ok) else trigger clients stores repo h s)
  unfolding found
  found_go repo h rest s e f = rw (e, f) refl

  not_push :
      (h : GitHook)
      → Announces clients.action_string h
      → (str_eq h.event event_push && str_eq h.action action_delete) ≡ false
  not_push h (inl (e, a)) = rw (e, a) refl
  not_push h (inr (inl (e, _, _))) = rw e refl
  not_push h (inr (inr (e, _))) = rw e refl

  not_closed :
      (h : GitHook)
      → clients.action_string open_pr ≢ "close"
      → clients.action_string sync ≢ "close"
      → Announces clients.action_string h
      → (str_eq h.event event_pull_request && str_eq h.action action_close) ≡ false
  not_closed h o y (inl (e, a)) = rw e refl
  not_closed h o y (inr (inl (e, _, _))) = rw e refl
  not_closed h o y (inr (inr (e, inl a))) =
      rw (e, differs h.action "close" (λ q. o (sym a ∙ q))) refl
  not_closed h o y (inr (inr (e, inr a))) =
      rw (e, differs h.action "close" (λ q. y (sym a ∙ q))) refl

  -- Where no opened or updated pull request is called "close", the guards of the handler on a deleted
  -- branch and a closed pull request never stop an accepted hook: only an inactive repository does.
  found-Announces :
      (repo : Repository) (h : GitHook) (rest : S × Response) (s : S)
      → clients.action_string open_pr ≢ "close"
      → clients.action_string sync ≢ "close"
      → Announces clients.action_string h
      → found clients stores (some repo) h rest s
        ≡ (if not repo.active then (s, ok) else trigger clients stores repo h s)
  found-Announces repo h rest s o y a = found_go repo h rest s (not_push h a) (not_closed h o y a)
