-- ===== src/Worker/Plan.antt =====
-- What `RunContainer` of worker/docker/docker.go works on: the job, its commands taken apart, and the
-- outside. The docker client, the cache of worker/cache and the terminal colours are parameters on a
-- state `S`; a container and an execution have an id. What goes into the log channel is a list, and so
-- are the commands handed to `exec`.
use abstruse.Prelude.{
  ℕ, suc, String, Bool, true, false, not, List, [], ◌∷◌, ◌++◌, ◌&&◌, Option, none, some, keep,
  str_eq, if◌then◌else◌,
}
use abstruse.Pb.{Command, CommandType, install, script, after_success, after_failure}

pub record Docker (S : Type 0) : Type 0 where
  pub connect : S → Option String
  pub container_exists : String → S → Option String
  pub remove : String → S → S × Option String
  pub create :
      String
      → String
      → List String
      → List String
      → List (String × String)
      → S
      → S × String × Option String
  pub start : String → S → S × Option String
  pub is_running : String → S → Bool
  pub exec : String → List String → List String → S → S × List String × String × Option String
  pub exit_code : String → S → ℕ × Option String
  pub path_exists : String → Bool
  pub download_cache : S → S × Option String
  pub save_cache : S → S × String × Option String
  pub file_size : String → S → String × Option String
  pub upload_cache : String → S → S × Option String
  pub yellow : String → String
  pub red : String → String
  pub green : String → String

pub record World (S : Type 0) : Type 0 where
  pub outside : S
  pub log : List String
  pub ran : List Command

-- The arguments of `RunContainer`; the directory is one that fs.TempDir made, so it is clean.
pub record Task : Type 0 where
  pub name : String
  pub image : String
  pub env : List String
  pub dir : String
  pub commands : List Command
  pub cache : List String
  pub mount : List String

abbrev pub is_failure : CommandType → Bool
is_failure after_failure = true
is_failure _ = false

abbrev pub is_success : CommandType → Bool
is_success after_success = true
is_success _ = false

abbrev pub is_cached : CommandType → Bool
is_cached install = true
is_cached script = true
is_cached _ = false

abbrev pub is_main : Command → Bool
is_main c = not (is_failure c.type) && not (is_success c.type)

pub record Sorted : Type 0 where
  pub commands : List Command
  pub failure : Option Command
  pub success : Option Command

-- The loop that takes the commands apart; of the others the last one counts.
unfoldable pub sort_loop : List Command → List Command → Option Command → Option Command → Sorted
sort_loop [] main failure success = record { commands = main; failure = failure; success = success }
sort_loop (c ∷ cs) main failure success =
    sort_loop cs (if is_main c then main ++ c ∷ [] else main)
      (if is_failure c.type then some c else failure)
      (if is_success c.type then some c else success)

unfoldable pub sort_commands : List Command → Sorted
sort_commands cs = sort_loop cs [] none none

unfoldable pub cache_index : ℕ → List Command → ℕ → ℕ
cache_index i [] found = found
cache_index i (c ∷ cs) found = cache_index (suc i) cs (if is_cached c.type then i else found)

-- lib.DeleteEmpty
abbrev pub delete_empty : List String → List String
delete_empty = keep (λ s. not (str_eq s ""))

abbrev pub is_none_left : List String → Bool
is_none_left [] = true
is_none_left (s ∷ ss) = false
