-- ===== src/Tests/Reconnecting.antt =====
-- A worker that loses connections, and one that comes back too early.
use abstruse.Prelude.{◌≡◌, refl, true, false, List, [], ◌∷◌, any, ◌==◌, none, some, ok}
use abstruse.Worker.Reconnect.{waiting, sending, finished, App, Move, lost, put, at}
use abstruse.Worker.Reconnect.Stuck.{moves, IsStuck, lost_twice-IsStuck}
use abstruse.Worker.Reconnect.Recovery.{Recovers, lost-Recovers}
use abstruse.Remote.Connection.{HostInfo, Links, Attempt, authorized, registered, ended, run}
use abstruse.Remote.Connection.Races.{Connects, listed, late_end-Delists}

lost_twice-IsStuck_example :
    (moves (lost "a" ∷ put ∷ lost "b" ∷ []) (at waiting none finished)
      ≡ some (at (sending "b") (some "a") finished))
    × ((ms : List Move) (b : App)
        → moves ms (at (sending "b") (some "a") finished) ≡ some b
        → IsStuck b)
lost_twice-IsStuck_example = lost_twice-IsStuck "a" "b" finished

lost-Recovers_example :
    Recovers 2 (at (sending "eof") none finished) × Recovers 2 (at waiting (some "eof") finished)
lost-Recovers_example = lost-Recovers 2 "eof"

abbrev info : HostInfo
info = record { id = "w"; max_parallel = 2 }

abbrev attempt : Attempt
attempt = record {
  port = ok "3330";
  remote_host = some "10.0.0.2";
  remote_addr = "10.0.0.2:5000";
  dialled = none;
  info = ok info;
}

abbrev nobody : Links
nobody = record {
  heap = λ p. record { id = ""; host_id = ""; max = 0; running = 0 };
  registry = [];
  watched = [];
}

connects : Connects attempt info
connects = ("3330", refl, refl, refl)

abbrev after : Links
after =
    run
      (authorized 1 "w" attempt
        ∷ registered 1
        ∷ authorized 2 "w" attempt
        ∷ registered 2
        ∷ ended 1
        ∷ [])
      nobody

late_end-Delists_example :
    (listed 2 after.registry ≡ false) × (any (λ w. w == 2) after.watched ≡ true)
late_end-Delists_example =
    late_end-Delists 1 2 "w" "w" attempt attempt info info nobody connects connects refl refl refl
