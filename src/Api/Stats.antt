-- ===== src/Api/Stats.antt =====
-- The handlers of server/api/stats: the statistics, the jobs of some days, and pausing and resuming the
-- scheduler, on the scheduler's state, whose outside is the database.
use abstruse.Prelude.{ℕ, String, Bool, List, Option, none, some, Result}
use abstruse.Core.{Job}
use abstruse.Stats.{StatsService, Usage, get_history}
use abstruse.Scheduler.State.{Scheduler}
use abstruse.Scheduler.Ops.{SchedulerStats, pause, resume, is_running}
use abstruse.Api.Answer.{server_error, Handler, or_render, only_admin, render_json}

pub record Resp : Type 0 where
  pub usage : List Usage
  pub stats : List SchedulerStats
  pub status : Bool

unfoldable pub handle_stats : {S : Type 0} → StatsService → Handler (Scheduler S) Resp
unfolding get_history is_running
handle_stats service s =
    let (usage, stats) = get_history service in
    render_json (record { usage = usage; stats = stats; status = is_running s }) s

-- The calls of time: `parse` is time.Parse with the layout of a day, `week_ago` is now less seven days,
-- and `at` is time.Date on the day of a time, with the hour, the minute and the second.
pub record Clock : Type 0 where
  pub parse : String → Option ℕ
  pub now : ℕ
  pub week_ago : ℕ
  pub at : ℕ → ℕ → ℕ → ℕ → ℕ

abbrev pub time_or : {A : Type 0} → A → Option A → A
time_or a none = a
time_or a (some b) = b

module _ {S : Type 0} where
  unfoldable pub handle_jobs :
      Clock → (ℕ → ℕ → S → Result (List Job)) → String → String → Handler (Scheduler S) (List Job)
  handle_jobs clock list from to s =
      let tfrom = clock.at (time_or clock.week_ago (clock.parse from)) 0 0 0 in
      let tto = clock.at (time_or clock.now (clock.parse to)) 23 59 59 in
      or_render server_error (list tfrom tto s.outside) render_json s

  -- `role` is Find of the store of users. The scheduler's methods give no error.
  unfoldable pub handle_pause : (ℕ → S → Result String) → ℕ → Handler (Scheduler S) (Unit {0})
  unfolding pause
  handle_pause role user s = only_admin (role user s.outside) (λ s. render_json tt (pause s)) s

  unfoldable pub handle_resume : (ℕ → S → Result String) → ℕ → Handler (Scheduler S) (Unit {0})
  unfolding resume
  handle_resume role user s = only_admin (role user s.outside) (λ s. render_json tt (resume s)) s
