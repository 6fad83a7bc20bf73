-- ===== src/Store/Hooks.antt =====
-- The webhooks of a repository in server/store/repo/repo.go: `ListHooks`, `CreateHook`, `DeleteHooks` and
-- `filterHooks`. `url_path` is the path that net/url finds in an address, or nothing where the address is
-- malformed and url.Parse returns a nil pointer.
pub mod Filter
use Prim.Native.String.{len, slice}
use abstruse.Prelude.{
  ℕ, ◌-◌, String, Bool, true, false, not, leb, List, [], ◌∷◌, ◌&&◌, Option, none, some, cat, str_eq,
  starts_with, if◌then◌else◌, Result, ok, err, panic, Effect, pure, reads, lift, done, for_each,
  ◌>>=◌, ◌>>◌,
}
use abstruse.Core.{Repository, Provider}
use abstruse.Gitscm
use abstruse.Gitscm.{GoScm, Hook, HookForm}

-- strings.HasSuffix
unfoldable pub ends_with : String → String → Bool
ends_with s t = leb (len t) (len s) && str_eq (slice s (len s - len t) (len s)) t

abbrev pub consed : Hook → Result (List Hook) → Result (List Hook)
consed hook (ok hooks) = ok (hook ∷ hooks)
consed hook (err e) = err e
consed hook panic = panic

-- `url.Path` of a nil pointer is a panic; HasPrefix is tested first.
abbrev pub with_path : Option String → Hook → Result (List Hook) → Result (List Hook)
with_path none hook rest = panic
with_path (some path) hook rest = if ends_with path "/webhooks" then consed hook rest else rest

module _ (url_path : String → Option String) where
  unfoldable pub filter_hooks : List Hook → Provider → Result (List Hook)
  unfolding ends_with
  filter_hooks [] provider = ok []
  filter_hooks (hook ∷ hooks) provider =
      let rest = filter_hooks hooks provider in
      if starts_with hook.target provider.host
      then with_path (url_path hook.target) hook rest
      else rest

-- `find` is Find of the same store, for a repository and a user.
module _ {S : Type 0} (url_path : String → Option String) (go_scm : GoScm S)
    (find : ℕ → ℕ → S → Result Repository) where
  -- The repository's hooks at the provider that belong to this server, with the client.
  abbrev our_hooks : Repository → Gitscm.Scm → Effect S (List Hook)
  our_hooks repo scm = do
    hooks ← Gitscm.list_hooks go_scm scm repo.full_name
    lift (filter_hooks url_path hooks repo.provider)

  abbrev scm_client : Repository → Effect S Gitscm.Scm
  scm_client repo =
      Gitscm.new go_scm repo.provider.name repo.provider.url repo.provider.access_token

  unfoldable pub list_hooks : ℕ → ℕ → Effect S (List Hook)
  unfolding filter_hooks
  list_hooks id user_id = do
    repo ← reads (find id user_id)
    scm ← scm_client repo
    our_hooks repo scm

  unfoldable pub delete_hooks : ℕ → ℕ → Effect S (Unit {0})
  unfolding filter_hooks
  delete_hooks id user_id = do
    repo ← reads (find id user_id)
    scm ← scm_client repo
    webhooks ← our_hooks repo scm
    for_each (λ (w : Hook). Gitscm.delete_hook go_scm scm repo.full_name w.id) webhooks
    done

  abbrev save_hook : Repository → Gitscm.Scm → HookForm → Effect S (Unit {0})
  save_hook repo scm form =
      if not form.branch && (not form.pull_request && (not form.push && not form.tag))
      then done
      else Gitscm.create_hook go_scm scm repo.full_name (cat repo.provider.host "/webhooks")
          repo.provider.secret repo.provider.name form
        >> done

  unfoldable pub create_hook : ℕ → ℕ → HookForm → Effect S (Unit {0})
  unfolding delete_hooks
  create_hook id user_id form = do
    delete_hooks id user_id
    repo ← reads (find id user_id)
    scm ← scm_client repo
    save_hook repo scm form
