-- ===== src/Stats.antt =====
-- The statistics of server/service/stats: the readings that every tick adds, and what is broadcast. The
-- readings of the machine are those of gopsutil.
pub mod Oldest
use abstruse.Prelude.{
  ℕ, suc, ◌-◌, List, [], ◌∷◌, ◌++◌, Bool, take, drop, length, ltb, if◌then◌else◌,
}
use abstruse.Scheduler.Ops.{SchedulerStats}

abbrev pub stats_history_count : ℕ
stats_history_count = 120

pub record Usage : Type 0 where
  pub cpu : ℕ
  pub mem : ℕ
  pub timestamp : ℕ

pub record StatsService : Type 0 where
  pub history : List Usage
  pub stats : List SchedulerStats

-- One tick of `run`: what is read of the machine and of the scheduler.
pub record Reading : Type 0 where
  pub usage : Usage
  pub scheduler : SchedulerStats

-- The event of the topic /subs/serverusage.
pub record ServerUsage : Type 0 where
  pub cpu : ℕ
  pub mem : ℕ
  pub stats : SchedulerStats

abbrev pub new_service : StatsService
new_service = record { history = []; stats = [] }

-- `s = append(s[:d], s[d+1:]...)`, which takes out the element at d.
abbrev pub without : {A : Type 0} → ℕ → List A → List A
without d xs = take d xs ++ drop (suc d) xs

-- `s = append(s, x); if len(s) > StatsHistoryCount { d := len(s) - StatsHistoryCount; … }`
unfoldable pub record_reading : {A : Type 0} → List A → A → List A
record_reading xs x =
    let all = xs ++ x ∷ [] in
    if ltb stats_history_count (length all)
    then without (length all - stats_history_count) all
    else all

-- The service after a tick, and the event that is broadcast.
unfoldable pub handle_usage : StatsService → Reading → StatsService × ServerUsage
unfolding record_reading
handle_usage s r = (
  record { history = record_reading s.history r.usage; stats = record_reading s.stats r.scheduler },
  record { cpu = r.usage.cpu; mem = r.usage.mem; stats = r.scheduler },
)

-- The loop of `run`, with the readings of the ticks.
unfoldable pub run : StatsService → List Reading → StatsService
unfolding handle_usage
run s [] = s
run s (r ∷ rs) = run (handle_usage s r).0 rs

-- `GetHistory`
unfoldable pub get_history : StatsService → List Usage × List SchedulerStats
get_history s = (s.history, s.stats)
