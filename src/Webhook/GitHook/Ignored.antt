-- ===== src/Webhook/GitHook/Ignored.antt =====
-- Which payloads server/service/githook/parser.go ignores.
use abstruse.Prelude.{
  String, ◌≡◌, ◌≢◌, ◌↔◌, ◌⊎◌, inl, inr, refl, true, none, str_eq, eq_iff, Bool-cases,
}
use abstruse.Webhook.Scm.{
  Action, create, delete, open_pr, close, sync, other_action, Driver, github, gitea, gitlab, stash,
  other_driver, PushHook, TagHook, PullRequestHook, BranchHook, Payload, push, tag, pull_request,
  branch, other_payload,
}
use abstruse.Webhook.GitHook.{
  parse_push_hook, parse_tag_hook, parse_pr_hook, parse_branch_hook, parse_payload,
}
use abstruse.Webhook.Events.{is_create, is_open_or_sync, sends_push_too, is_stash, empty_commit}

-- A push that deletes, a tag that is not created or that a push announces as well, a pull request that
-- is neither opened nor updated, a branch that is not created or not on stash, and everything else.
abbrev pub Ignored : Driver → Payload → Type 0
Ignored d (push h) = h.commit.sha ≡ empty_commit
Ignored d (tag h) = (h.action ≢ create) ⊎ ((d ≡ github) ⊎ ((d ≡ gitea) ⊎ (d ≡ gitlab)))
Ignored d (pull_request h) = (h.action ≢ open_pr) × (h.action ≢ sync)
Ignored d (branch h) = (h.action ≢ create) ⊎ (d ≢ stash)
Ignored d other_payload = Unit {0}

is_create_iff : (a : Action) → (is_create a ≡ true) ↔ (a ≡ create)
unfolding is_create
is_create_iff create = ((λ _. refl), (λ _. refl))
is_create_iff delete = ((λ e. cc), (λ e. cc))
is_create_iff open_pr = ((λ e. cc), (λ e. cc))
is_create_iff close = ((λ e. cc), (λ e. cc))
is_create_iff sync = ((λ e. cc), (λ e. cc))
is_create_iff (other_action n) = ((λ e. cc), (λ e. cc))

is_open_or_sync_iff : (a : Action) → (is_open_or_sync a ≡ true) ↔ ((a ≡ open_pr) ⊎ (a ≡ sync))
unfolding is_open_or_sync
is_open_or_sync_iff open_pr = ((λ _. inl refl), (λ _. refl))
is_open_or_sync_iff sync = ((λ _. inr refl), (λ _. refl))
is_open_or_sync_iff create = ((λ e. cc), (λ e. elim e [ inl q ↦ cc | inr q ↦ cc ]))
is_open_or_sync_iff delete = ((λ e. cc), (λ e. elim e [ inl q ↦ cc | inr q ↦ cc ]))
is_open_or_sync_iff close = ((λ e. cc), (λ e. elim e [ inl q ↦ cc | inr q ↦ cc ]))
is_open_or_sync_iff (other_action n) = ((λ e. cc), (λ e. elim e [ inl q ↦ cc | inr q ↦ cc ]))

abbrev Three : Driver → Type 0
Three d = (d ≡ github) ⊎ ((d ≡ gitea) ⊎ (d ≡ gitlab))

sends_push_too_iff : (d : Driver) → (sends_push_too d ≡ true) ↔ Three d
unfolding sends_push_too
sends_push_too_iff github = ((λ _. inl refl), (λ _. refl))
sends_push_too_iff gitea = ((λ _. inr (inl refl)), (λ _. refl))
sends_push_too_iff gitlab = ((λ _. inr (inr refl)), (λ _. refl))
sends_push_too_iff stash =
    ((λ e. cc), (λ e. elim e [ inl q ↦ cc | inr (inl q) ↦ cc | inr (inr q) ↦ cc ]))
sends_push_too_iff (other_driver n) =
    ((λ e. cc), (λ e. elim e [ inl q ↦ cc | inr (inl q) ↦ cc | inr (inr q) ↦ cc ]))

is_stash_iff : (d : Driver) → (is_stash d ≡ true) ↔ (d ≡ stash)
unfolding is_stash
is_stash_iff stash = ((λ _. refl), (λ _. refl))
is_stash_iff github = ((λ e. cc), (λ e. cc))
is_stash_iff gitea = ((λ e. cc), (λ e. cc))
is_stash_iff gitlab = ((λ e. cc), (λ e. cc))
is_stash_iff (other_driver n) = ((λ e. cc), (λ e. cc))

module _ (trim_ref : String → String) (action_string : Action → String) where
  push-Ignored :
      (d : Driver) (h : PushHook) → (parse_push_hook trim_ref h ≡ none) ↔ Ignored d (push h)
  unfolding parse_push_hook
  push-Ignored d h = elim (Bool-cases (str_eq h.commit.sha empty_commit)) [
    | inl e ↦ rw e ((λ _. (eq_iff h.commit.sha empty_commit).0 e), (λ _. refl))
    | inr e ↦ rw e ((λ q. cc), (λ q. absurd (cc ((eq_iff h.commit.sha empty_commit).1 q))))
  ]

  tag-Ignored : (d : Driver) (h : TagHook) → (parse_tag_hook d h ≡ none) ↔ Ignored d (tag h)
  unfolding parse_tag_hook
  tag-Ignored d h = elim (Bool-cases (is_create h.action)) [
    | inr e ↦ rw e ((λ _. inl (λ q. cc ((is_create_iff h.action).1 q))), (λ _. refl))
    | inl e ↦ rw e (elim (Bool-cases (sends_push_too d)) [
      | inl k ↦ rw k ((λ _. inr ((sends_push_too_iff d).0 k)), (λ _. refl))
      | inr k ↦ rw k (
        (λ q. cc),
        (λ q. elim q [
          | inl ne ↦ absurd (ne ((is_create_iff h.action).0 e))
          | inr three ↦ cc ((sends_push_too_iff d).1 three)
        ]),
      )
    ])
  ]

  pr-Ignored :
      (d : Driver) (h : PullRequestHook)
      → (parse_pr_hook action_string h ≡ none) ↔ Ignored d (pull_request h)
  unfolding parse_pr_hook
  pr-Ignored d h = elim (Bool-cases (is_open_or_sync h.action)) [
    | inl e ↦ rw e (
      (λ q. cc),
      (λ q. elim ((is_open_or_sync_iff h.action).0 e) [
        | inl w ↦ absurd (q.0 w)
        | inr w ↦ absurd (q.1 w)
      ]),
    )
    | inr e ↦ rw e (
      (λ _. (
        (λ w. cc ((is_open_or_sync_iff h.action).1 (inl w))),
        (λ w. cc ((is_open_or_sync_iff h.action).1 (inr w))),
      )),
      (λ _. refl),
    )
  ]

  branch-Ignored :
      (d : Driver) (h : BranchHook) → (parse_branch_hook d h ≡ none) ↔ Ignored d (branch h)
  unfolding parse_branch_hook
  branch-Ignored d h = elim (Bool-cases (is_create h.action)) [
    | inr e ↦ rw e ((λ _. inl (λ q. cc ((is_create_iff h.action).1 q))), (λ _. refl))
    | inl e ↦ rw e (elim (Bool-cases (is_stash d)) [
      | inr k ↦ rw k ((λ _. inr (λ q. cc ((is_stash_iff d).1 q))), (λ _. refl))
      | inl k ↦ rw k (
        (λ q. cc),
        (λ q. elim q [
          | inl ne ↦ absurd (ne ((is_create_iff h.action).0 e))
          | inr ne ↦ absurd (ne ((is_stash_iff d).0 k))
        ]),
      )
    ])
  ]

  -- The parser ignores exactly these payloads: a push of the empty commit; a tag that is not created, or
  -- any tag from GitHub, Gitea or GitLab, which announce it by a push as well; a pull request that is
  -- neither opened nor updated; a branch that is not created or not on Stash; every other payload.
  pub parse_payload-Ignored :
      (d : Driver) (p : Payload) → (parse_payload trim_ref action_string d p ≡ none) ↔ Ignored d p
  unfolding parse_payload
  parse_payload-Ignored d (push h) = push-Ignored d h
  parse_payload-Ignored d (tag h) = tag-Ignored d h
  parse_payload-Ignored d (pull_request h) = pr-Ignored d h
  parse_payload-Ignored d (branch h) = branch-Ignored d h
  parse_payload-Ignored d other_payload = ((λ _. tt), (λ _. refl))
