-- ===== src/Parser/Env.antt =====
-- server/parser/env.go: the global environment of a build. A Go map is ranged over in an order that
-- the language leaves open, so the order is a parameter: any function that permutes the entries.
pub mod Tag
use abstruse.Prelude.{
  ℕ, zero, suc, ◌/◌, ◌%◌, String, List, [], ◌∷◌, map, Option, none, some, cat, trim_prefix,
  starts_with, ltb, ◌==◌, get_elem?, if◌then◌else◌,
}
use abstruse.Core.{Build}

abbrev or_empty : Option String → String
or_empty none = ""
or_empty (some s) = s

digit : ℕ → String
digit d = or_empty (get_elem? ("0" ∷ "1" ∷ "2" ∷ "3" ∷ "4" ∷ "5" ∷ "6" ∷ "7" ∷ "8" ∷ "9" ∷ []) d)

-- A number has fewer digits than its successor counts, so `decimal` gives fuel enough.
digits : ℕ → ℕ → String
unfolding digit
digits zero n = ""
digits (suc f) n =
    let rest = digits f (n / 10) in if ltb n 10 then digit n else cat rest (digit (n % 10))

-- fmt.Sprintf("%d", n)
unfoldable pub decimal : ℕ → String
unfolding digits
decimal n = digits (suc n) n

unfoldable pub pull_request_value : ℕ → String
unfolding decimal
pull_request_value pr = if pr == 0 then "false" else decimal pr

unfoldable pub tag_value : String → String
tag_value ref = if starts_with ref "refs/tags/" then trim_prefix ref "refs/tags/" else "false"

-- The map `envs`, by its distinct keys.
unfoldable pub global_env : Build → List (String × String)
global_env b =
    ("ABSTRUSE_REF", b.ref)
    ∷ ("ABSTRUSE_BRANCH", b.branch)
    ∷ ("ABSTRUSE_COMMIT", b.commit)
    ∷ ("ABSTRUSE_PULL_REQUEST", pull_request_value b.pr)
    ∷ ("ABSTRUSE_TAG", tag_value b.ref)
    ∷ []

-- fmt.Sprintf("%s=%s", key, val)
abbrev pub entry : String × String → String
entry (key, val) = cat key (cat "=" val)

module _ (order : List (String × String) → List (String × String)) where
  unfoldable pub to_slice : List (String × String) → List String
  to_slice envs = map entry (order envs)

  unfoldable pub generate_global_env : Build → List String
  unfolding to_slice global_env
  generate_global_env b = to_slice (global_env b)
