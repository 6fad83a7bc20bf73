-- ===== src/Store/Jobs.antt =====
-- server/store/job/job.go. The queries of gorm are parameters, and so are Go's conversions between a text
-- and its bytes.
pub mod Logs
use abstruse.Prelude.{
  ℕ, ◌-◌, String, Bool, ltb, List, length, drop, Result, ok, err, panic, Effect, reads, ◌>>=◌,
  if◌then◌else◌, pure,
}
use abstruse.Core.{Perms, Job}

-- `updates` writes the status, the times and the log.
pub record JobTable (S : Type 0) : Type 0 where
  pub by_id : ℕ → S → Result Job
  pub between : ℕ → ℕ → S → Result (List Job)
  pub insert : Job → Effect S (Unit {0})
  pub updates : Job → Effect S (Unit {0})
  pub remove : Job → Effect S (Unit {0})
  pub permissions : ℕ → ℕ → S → Perms
  pub bytes : String → List ℕ
  pub text : List ℕ → String

abbrev pub max_log : ℕ
max_log = 65535

-- The last bytes of a log that is too long for its column.
unfoldable pub cut : List ℕ → List ℕ
cut log = if ltb max_log (length log) then drop (length log - max_log) log else log

module _ {S : Type 0} (table : JobTable S) where
  unfoldable pub find : ℕ → Effect S Job
  find id = reads (table.by_id id)

  abbrev pub with_perms : ℕ → Job → S → Job
  with_perms user job s = record job {
    build = record job.build {
      repository = record job.build.repository {
        perms = table.permissions job.build.repository_id user s;
      };
    };
  }

  unfoldable pub find_user : ℕ → ℕ → Effect S Job
  find_user id user = find id >>= λ job s. (ok (with_perms user job s), s)

  unfoldable pub list : ℕ → ℕ → Effect S (List Job)
  list from to = reads (table.between from to)

  unfoldable pub create : Job → Effect S (Unit {0})
  create job = table.insert job

  -- `if len(log) > 65535 { … job.Log = string(log) }`
  unfoldable pub shortened : Job → Job
  shortened job =
      if ltb max_log (length (table.bytes job.log))
      then record job { log = table.text (cut (table.bytes job.log)) }
      else job

  -- The second write, after an error of the first.
  abbrev pub retried : Job → Result (Unit {0}) × S → Result (Unit {0}) × S
  retried job (ok u, s) = (ok u, s)
  retried job (err e, s) = table.updates (shortened job) s
  retried job (panic, s) = (panic, s)

  unfoldable pub update : Job → Effect S (Unit {0})
  update job s = retried job (table.updates job s)

  unfoldable pub delete : Job → Effect S (Unit {0})
  delete job = table.remove job
