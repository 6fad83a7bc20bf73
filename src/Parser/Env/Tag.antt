-- ===== src/Parser/Env/Tag.antt =====
-- The entry of the global environment that names the tag.
use mathlib.Core.List.{Mem, Perm, mem-cons_self, mem-map_of_mem, mem-cons_of_mem}
use mathlib.Core.List.Perm
use abstruse.Prelude.{
  String, ◌≡◌, ap, ◌∙◌, subst, List, map, cat, trim_prefix, starts_with, if◌then◌else◌,
  trim_prefix-cat, starts_with-append,
}
use abstruse.Core.{Build}
use abstruse.Parser.Env.{tag_value, global_env, to_slice, generate_global_env, entry}

strip :
    (p name : String)
    → (if starts_with (cat p name) p then trim_prefix (cat p name) p else "false") ≡ name
strip p name = rw (starts_with-append p name) (trim_prefix-cat p name)

tag_value-cat : (name : String) → tag_value (cat "refs/tags/" name) ≡ name
unfolding tag_value
tag_value-cat name = strip "refs/tags/" name

tag_entry : (b : Build) → Mem ("ABSTRUSE_TAG", tag_value b.ref) (global_env b)
unfolding global_env
tag_entry b =
    mem-cons_of_mem _ (mem-cons_of_mem _ (mem-cons_of_mem _ (mem-cons_of_mem _ mem-cons_self)))

module _ (order : List (String × String) → List (String × String))
    (permutes : (l : List (String × String)) → Perm (order l) l) where
  -- In whatever order the map is ranged over, a build of the ref `refs/tags/<name>` has the entry
  -- `ABSTRUSE_TAG=<name>`.
  generate_global_env-tag :
      (b : Build) (name : String)
      → b.ref ≡ cat "refs/tags/" name
      → Mem (cat "ABSTRUSE_TAG" (cat "=" name)) (generate_global_env order b)
  unfolding generate_global_env to_slice
  generate_global_env-tag b name e =
      subst (λ t. Mem (cat "ABSTRUSE_TAG" (cat "=" t)) (map entry (order (global_env b))))
        (ap tag_value e ∙ tag_value-cat name)
        (mem-map_of_mem entry ((Perm.mem_iff (permutes (global_env b))).1 (tag_entry b)))
