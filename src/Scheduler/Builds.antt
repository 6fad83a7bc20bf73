-- ===== src/Scheduler/Builds.antt =====
-- `updateBuildTime`, `sendStatus` and `saveJob` of server/scheduler/scheduler.go. The stores behind
-- core.JobStore and core.BuildStore and the SCM provider are a parameter: functions on a state `S`
-- of the outside, which answer with an error text or with none.
pub mod Times
use abstruse.Prelude.{
  ℕ, String, Bool, true, false, List, [], ◌∷◌, Option, none, some, ltb, str_eq, if◌then◌else◌,
}
use abstruse.Core.{Job, Build}

-- scm.State, as far as the scheduler sends it
pub data ScmState : Type 0 where
  pending running success error : ScmState

-- What `BuildStore.Find` returns: the row, with its jobs loaded.
pub record FoundBuild : Type 0 where
  pub build : Build
  pub jobs : List Job

pub record Services (S : Type 0) : Type 0 where
  pub update_job : Job → S → S × Option String
  pub find_job : ℕ → S → Job × Option String
  pub find_build : ℕ → S → Option FoundBuild
  pub update_build : Build → S → S × Option String
  pub send_status : Build → ScmState → S → S × Option String

-- `startTime == nil || (j.StartTime != nil && j.StartTime.Before(*startTime))`
unfoldable pub earlier : Option ℕ → Option ℕ → Option ℕ
earlier none s = s
earlier (some a) none = some a
earlier (some a) (some b) = if ltb b a then some b else some a

-- `endTime == nil || j.EndTime.After(*endTime)`
unfoldable pub later : Option ℕ → ℕ → Option ℕ
later none e = some e
later (some a) e = if ltb a e then some e else some a

-- The loop over the jobs: whether all are done, and the start and end so far.
unfoldable pub scan : List Job → Option ℕ → Option ℕ → Bool × Option ℕ × Option ℕ
unfolding earlier later
scan [] start end = (true, start, end)
scan (j ∷ js) start end = elim j.end_time [
  | none ↦ (false, start, end)
  | some e ↦ scan js (earlier start j.start_time) (later end e)
]

-- The loop over the statuses.
unfoldable pub all_passing : List Job → Bool
all_passing [] = true
all_passing (j ∷ js) = if str_eq j.status "passing" then all_passing js else false

module _ {S : Type 0} (svc : Services S) where
  abbrev and_then : S × Option String → (S → S × Option String) → S × Option String
  and_then (s, some e) k = (s, some e)
  and_then (s, none) k = k s

  save_start : Build → Option ℕ → S → S × Option String
  save_start b none s = (s, none)
  save_start b (some t) s = svc.update_build (record b { start_time = some t }) s

  abbrev started : Build → Option ℕ → Build
  started b none = b
  started b (some t) = record b { start_time = some t }

  save_end : Build → List Job → Bool → Option ℕ → S → S × Option String
  unfolding all_passing
  save_end b jobs false t s = (s, none)
  save_end b jobs true none s = (s, none)
  save_end b jobs true (some t) s =
      let b' = record b { end_time = some t } in
      and_then (svc.update_build b' s)
        (svc.send_status b' (if all_passing jobs then success else error))

  both_set : Option ℕ → Option ℕ → Bool
  both_set (some a) (some b) = true
  both_set _ _ = false

  update_times : FoundBuild → S → S × Option String
  unfolding save_start save_end both_set scan
  update_times f s =
      let (alldone, start, end) = scan f.jobs none none in
      if both_set f.build.start_time f.build.end_time
      then (s, none)
      else and_then (save_start f.build start s)
          (save_end (started f.build start) f.jobs alldone end)

  unfoldable pub update_build_time : ℕ → S → S × Option String
  unfolding update_times
  update_build_time id s = elim (svc.find_build id s) [
    | none ↦ (s, some "record not found")
    | some f ↦ update_times f s
  ]

  -- The error of `jobStore.Update` is only logged; the broadcast to the hub is left out.
  unfoldable pub save_job : Job → S → S × Option String
  unfolding update_build_time
  save_job job s = update_build_time job.build_id (svc.update_job job s).0

  -- The goroutines that tell the provider of a job's state: errors are only logged. A build that is
  -- not found is sent as the zero value, whose provider gitscm.New refuses.
  unfoldable pub tell : ℕ → ScmState → S → S
  tell build_id state s = elim (svc.find_build build_id s) [
    | none ↦ s
    | some f ↦ (svc.send_status f.build state s).0
  ]
