-- ===== src/Scheduler/Env/Split.antt =====
-- When the environment of a job survives the way through its text.
use abstruse.Prelude.{
  String, ◌≡◌, refl, ap, ◌∙◌, false, List, [], ◌∷◌, ◌++◌, map, cat, join, split, NoSep, All-NoSep,
  All, split-NoSep, split-join, split-sep,
}
use abstruse.Pb.{EnvVariable}
use abstruse.Parser.Env.{entry}
use abstruse.Scheduler.Env.{env_of_parts, split_envs, job_envs}

abbrev pub plain_env : String × String → EnvVariable
plain_env (k, v) = record { key = k; value = v; secret = false }

-- No "=" inside the key or the value, and no space in the entry.
abbrev pub IsPlainEnv : String × String → Type 0
IsPlainEnv kv = NoSep "=" kv.0 × NoSep "=" kv.1 × NoSep " " (entry kv)

split-entry : (k v : String) → NoSep "=" k → NoSep "=" v → split (entry (k, v)) "=" ≡ k ∷ v ∷ []
split-entry k v hk hv = split-join k (v ∷ []) "=" hk (hv, tt)

split_envs-entries :
    (kvs : List (String × String))
    → All IsPlainEnv kvs
    → split_envs (map entry kvs) ≡ map plain_env kvs
unfolding split_envs env_of_parts
split_envs-entries [] h = refl
split_envs-entries ((k, v) ∷ kvs) ((hk, hv, _), h) =
    ap (λ ps. env_of_parts ps ++ split_envs (map entry kvs)) (split-entry k v hk hv)
    ∙ ap (◌∷◌ (plain_env (k, v))) (split_envs-entries kvs h)

spaces : (kvs : List (String × String)) → All IsPlainEnv kvs → All-NoSep " " (map entry kvs)
spaces [] h = tt
spaces (kv ∷ kvs) ((_, _, hs), h) = (hs, spaces kvs h)

-- Entries `key=value` joined by spaces are read back as they were, where no key and no value holds an
-- equals sign and no entry holds a space.
pub job_envs-join :
    (kvs : List (String × String))
    → All IsPlainEnv kvs
    → job_envs (join (map entry kvs) " ") ≡ map plain_env kvs
unfolding job_envs split_envs env_of_parts
job_envs-join [] h =
    ap split_envs (split-NoSep "" " " tt) ∙ ap (λ ps. env_of_parts ps ++ []) (split-NoSep "" "=" tt)
job_envs-join (kv ∷ kvs) h =
    ap split_envs (split-join (entry kv) (map entry kvs) " " h.0.2 (spaces kvs h.1))
    ∙ split_envs-entries (kv ∷ kvs) h

-- Of an entry without spaces, whose key holds no equals sign, the value is cut at its first equals
-- sign: what follows is lost.
pub job_envs_cut :
    (k v w : String)
    → NoSep "=" k
    → NoSep "=" v
    → NoSep " " (entry (k, cat v (cat "=" w)))
    → job_envs (entry (k, cat v (cat "=" w))) ≡ plain_env (k, v) ∷ []
unfolding job_envs split_envs env_of_parts
job_envs_cut k v w hk hv hs =
    ap split_envs (split-NoSep (entry (k, cat v (cat "=" w))) " " hs)
    ∙ ap (λ ps. env_of_parts ps ++ [])
        (split-sep k "=" (cat v (cat "=" w)) hk ∙ ap (◌∷◌ k) (split-sep v "=" w hv))
