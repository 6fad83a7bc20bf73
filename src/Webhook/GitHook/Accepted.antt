-- ===== src/Webhook/GitHook/Accepted.antt =====
-- Which payloads server/service/githook/parser.go accepts, and the shape of what it makes of them.
use abstruse.Prelude.{
  String, ◌≡◌, ◌⊎◌, inl, inr, refl, subst, true, none, some, starts_with, starts_with-append,
  str_eq, Bool-cases,
}
use abstruse.Core.{GitHook}
use abstruse.Webhook.Scm.{
  Action, create, delete, open_pr, close, sync, other_action, Driver, PushHook, TagHook,
  PullRequestHook, BranchHook, Payload, push, tag, pull_request, branch, other_payload,
}
use abstruse.Webhook.GitHook.{
  HookRepo, Accepts, tag_ref, pushed_branch, pushed_tag, parse_push_hook, parse_tag_hook,
  parse_pr_hook, parse_branch_hook, parse_payload,
}
use abstruse.Webhook.Events.{is_create, is_open_or_sync, sends_push_too, is_stash, empty_commit}

-- A push names no action; a tag is created, and its ref is in full; a pull request's action is that of
-- an opened or an updated one.
abbrev pub Announces : (Action → String) → GitHook → Type 0
Announces action_string h =
    ((h.event ≡ "push") × (h.action ≡ ""))
    ⊎ (((h.event ≡ "tag") × (h.action ≡ "create") × (starts_with h.ref "refs/tags/" ≡ true))
        ⊎ ((h.event ≡ "pull_request")
            × ((h.action ≡ action_string open_pr) ⊎ (h.action ≡ action_string sync))))

abbrev pub AllAccepted : (GitHook → Type 0) → Accepts → Type 0
AllAccepted P none = Unit {0}
AllAccepted P (some (h, r)) = P h

tag_ref-IsFull : (ref : String) → starts_with (tag_ref ref) "refs/tags/" ≡ true
unfolding tag_ref
tag_ref-IsFull ref = elim (Bool-cases (starts_with ref "refs/tags/")) [
  | inl e ↦ rw e e
  | inr e ↦ rw e (starts_with-append "refs/tags/" ref)
]

module _ (trim_ref : String → String) (action_string : Action → String) where
  push_announced :
      (h : PushHook) → AllAccepted (Announces action_string) (parse_push_hook trim_ref h)
  unfolding parse_push_hook pushed_tag pushed_branch
  push_announced h = elim (Bool-cases (str_eq h.commit.sha empty_commit)) [
    | inl e ↦ rw e tt
    | inr e ↦ rw e (elim (Bool-cases (starts_with h.ref "refs/tags/")) [
      | inl q ↦ rw q (inr (inl (refl, refl, q)))
      | inr q ↦ rw q (inl (refl, refl))
    ])
  ]

  tag_announced :
      (driver : Driver) (h : TagHook)
      → AllAccepted (Announces action_string) (parse_tag_hook driver h)
  unfolding parse_tag_hook
  tag_announced driver h = elim (Bool-cases (is_create h.action)) [
    | inr e ↦ rw e tt
    | inl e ↦ rw e (elim (Bool-cases (sends_push_too driver)) [
      | inl q ↦ rw q tt
      | inr q ↦ rw q (inr (inl (refl, refl, tag_ref-IsFull h.ref.name)))
    ])
  ]

  open_or_sync :
      (a : Action)
      → is_open_or_sync a ≡ true
      → (action_string a ≡ action_string open_pr) ⊎ (action_string a ≡ action_string sync)
  unfolding is_open_or_sync
  open_or_sync open_pr e = inl refl
  open_or_sync sync e = inr refl
  open_or_sync create e = cc
  open_or_sync delete e = cc
  open_or_sync close e = cc
  open_or_sync (other_action n) e = cc

  pr_announced :
      (h : PullRequestHook) → AllAccepted (Announces action_string) (parse_pr_hook action_string h)
  unfolding parse_pr_hook
  pr_announced h = elim (Bool-cases (is_open_or_sync h.action)) [
    | inl e ↦ rw e (inr (inr (refl, open_or_sync h.action e)))
    | inr e ↦ rw e tt
  ]

  branch_announced :
      (driver : Driver) (h : BranchHook)
      → AllAccepted (Announces action_string) (parse_branch_hook driver h)
  unfolding parse_branch_hook
  branch_announced driver h = elim (Bool-cases (is_create h.action)) [
    | inr e ↦ rw e tt
    | inl e ↦
        rw e (elim (Bool-cases (is_stash driver)) [
          | inl q ↦ rw q (inl (refl, refl))
          | inr q ↦ rw q tt
        ])
  ]

  payload_announced :
      (driver : Driver) (p : Payload)
      → AllAccepted (Announces action_string) (parse_payload trim_ref action_string driver p)
  unfolding parse_payload
  payload_announced driver (push h) = push_announced h
  payload_announced driver (tag h) = tag_announced driver h
  payload_announced driver (pull_request h) = pr_announced h
  payload_announced driver (branch h) = branch_announced driver h
  payload_announced driver other_payload = tt

  -- Every hook that the parser accepts is of one of three shapes: a push without an action, a created
  -- tag with its ref in full, or a pull request whose action is that of an opened or an updated one.
  pub parse_payload-Announces :
      (driver : Driver) (p : Payload) (h : GitHook) (r : HookRepo)
      → parse_payload trim_ref action_string driver p ≡ some (h, r)
      → Announces action_string h
  parse_payload-Announces driver p h r e =
      subst (AllAccepted (Announces action_string)) e (payload_announced driver p)
