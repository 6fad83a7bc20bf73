-- ===== src/Scheduler/Env.antt =====
-- How `startJob` of server/scheduler/scheduler.go reads the environment of a job back from the text
-- that server/store/build/build.go joined.
pub mod Split
use abstruse.Prelude.{String, false, List, [], ◌∷◌, ◌++◌, map, split}
use abstruse.Pb.{EnvVariable}
use abstruse.Core

-- `if len(splitted) > 1`: the first two parts are the key and the value.
unfoldable pub env_of_parts : List String → List EnvVariable
env_of_parts (k ∷ v ∷ rest) = record { key = k; value = v; secret = false } ∷ []
env_of_parts _ = []

unfoldable pub split_envs : List String → List EnvVariable
split_envs [] = []
split_envs (e ∷ es) = env_of_parts (split e "=") ++ split_envs es

-- for _, e := range strings.Split(job.Env, " ")
unfoldable pub job_envs : String → List EnvVariable
job_envs env = split_envs (split env " ")

unfoldable pub repo_envs : List Core.EnvVariable → List EnvVariable
repo_envs = map (λ e. record { key = e.key; value = e.value; secret = e.secret })
