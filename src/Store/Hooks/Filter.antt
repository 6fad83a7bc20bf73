-- ===== src/Store/Hooks/Filter.antt =====
-- Which webhooks `filterHooks` of server/store/repo/repo.go takes for this server's own, and what
-- `CreateHook` leaves of them.
use mathlib.Core.List.{Memᴰ}
use abstruse.Prelude.{
  String, ◌≡◌, refl, ap, ◌∙◌, Bool, true, false, List, [], ◌∷◌, ◌&&◌, Option, none, some,
  starts_with, if◌then◌else◌, keep, Result, ok, err, panic,
}
use abstruse.Core.{Provider}
use abstruse.Gitscm.{Hook}
use abstruse.Store.Hooks.{ends_with, consed, with_path, filter_hooks}

abbrev ends_of : Option String → Bool
ends_of none = false
ends_of (some path) = ends_with path "/webhooks"

-- The address begins with the provider's host and its path ends in /webhooks.
abbrev pub is_ours : (String → Option String) → Provider → Hook → Bool
is_ours url_path provider hook =
    starts_with hook.target provider.host && ends_of (url_path hook.target)

-- Those, in order, where the filter succeeds, and a malformed address under the provider's host where it panics.
abbrev pub Filtered : (String → Option String) → Provider → List Hook → Result (List Hook) → Type 0
Filtered url_path provider hooks (ok ours) = ours ≡ keep (is_ours url_path provider) hooks
Filtered url_path provider hooks (err e) = ⊥
Filtered url_path provider hooks panic =
    (hook : Hook) × Memᴰ hook hooks
    × (starts_with hook.target provider.host ≡ true)
    × (url_path hook.target ≡ none)

module _ (url_path : String → Option String) (provider : Provider) where
  both :
      (h : Hook) {o : Option String} {c : Bool}
      → starts_with h.target provider.host ≡ true
      → url_path h.target ≡ o
      → ends_of o ≡ c
      → is_ours url_path provider h ≡ c
  both h eb eo ec = rw eb (ap ends_of eo ∙ ec)

  skipped :
      (h : Hook) (hs : List Hook) (r : Result (List Hook))
      → is_ours url_path provider h ≡ false
      → Filtered url_path provider hs r
      → Filtered url_path provider (h ∷ hs) r
  skipped h hs (ok ours) skip f = f ∙ rw skip refl
  skipped h hs (err e) skip f = f
  skipped h hs panic skip (hook, m, p, u) = (hook, Memᴰ.tail m, p, u)

  taken :
      (h : Hook) (hs : List Hook) (r : Result (List Hook))
      → is_ours url_path provider h ≡ true
      → Filtered url_path provider hs r
      → Filtered url_path provider (h ∷ hs) (consed h r)
  taken h hs (ok ours) take f = ap (λ l. h ∷ l) f ∙ rw take refl
  taken h hs (err e) take f = f
  taken h hs panic take (hook, m, p, u) = (hook, Memᴰ.tail m, p, u)

  -- One round of the loop, by what the two tests give.
  rounded :
      (h : Hook) (hs : List Hook) (r : Result (List Hook)) (b : Bool) (o : Option String) (c : Bool)
      → starts_with h.target provider.host ≡ b
      → url_path h.target ≡ o
      → ends_of o ≡ c
      → Filtered url_path provider hs r
      → Filtered url_path provider (h ∷ hs) (if b then with_path o h r else r)
  rounded h hs r false o c eb eo ec f = skipped h hs r (rw eb refl) f
  rounded h hs r true none c eb eo ec f = (h, Memᴰ.head refl, eb, eo)
  rounded h hs r true (some path) true eb eo ec f = rw ec (taken h hs r (both h eb eo ec) f)
  rounded h hs r true (some path) false eb eo ec f = rw ec (skipped h hs r (both h eb eo ec) f)

  -- `filterHooks` gives the webhooks whose address begins with the provider's host and has a path that
  -- ends in /webhooks, in order; it has no result, by a nil pointer, only if some webhook's address
  -- begins with the provider's host and is malformed.
  pub filter_hooks-Filtered :
      (hooks : List Hook) → Filtered url_path provider hooks (filter_hooks url_path hooks provider)
  unfolding filter_hooks
  filter_hooks-Filtered [] = refl
  filter_hooks-Filtered (h ∷ hs) = rounded h hs _ _ _ _ refl refl refl (filter_hooks-Filtered hs)
