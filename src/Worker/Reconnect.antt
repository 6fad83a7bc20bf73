-- ===== src/Worker/Reconnect.antt =====
-- The goroutines of `Run` in worker/app/app.go: the loop that asks the server to authorize the worker
-- again, and the first request. Both put errors into a channel that holds one. A move is what one of
-- them, the server's answer or the end of a connection (`Usage` of worker/app/server.go) does next.
pub mod Stuck
pub mod Recovery
use abstruse.Prelude.{String, Option, none, some}

-- Where the loop stands: at the select; in the request after an error was taken; at `errch <- err`.
pub data Loop : Type 0 where
  waiting : Loop
  requesting : Loop
  sending : String → Loop

-- Where the goroutine of the first request stands.
pub data Starting : Type 0 where
  asking : Starting
  putting : String → Starting
  finished : Starting

-- `buffer` is what the channel errch holds.
pub record App : Type 0 where
  pub loop : Loop
  pub buffer : Option String
  pub starting : Starting

pub data Move : Type 0 where
  start_answered : Move
  start_failed : String → Move
  start_put : Move
  taken : Move
  lost : String → Move
  answered : Move
  failed : String → Move
  put : Move

abbrev pub at : Loop → Option String → Starting → App
at l b s = record { loop = l; buffer = b; starting = s }

abbrev pub started : App
started = at waiting none asking

-- `none`: the move is not possible.
unfoldable pub moved : Move → Loop → Option String → Starting → Option App
moved start_answered l b asking = some (at l b finished)
moved start_answered l b (putting e) = none
moved start_answered l b finished = none
moved (start_failed e) l b asking = some (at l b (putting e))
moved (start_failed e) l b (putting e') = none
moved (start_failed e) l b finished = none
moved start_put l none asking = none
moved start_put l none (putting e) = some (at l (some e) finished)
moved start_put l none finished = none
moved start_put l (some e) s = none
moved taken waiting none s = none
moved taken waiting (some e) s = some (at requesting none s)
moved taken requesting b s = none
moved taken (sending e) b s = none
moved (lost e) waiting b s = some (at (sending e) b s)
moved (lost e) requesting b s = none
moved (lost e) (sending e') b s = none
moved answered waiting b s = none
moved answered requesting b s = some (at waiting b s)
moved answered (sending e) b s = none
moved (failed e) waiting b s = none
moved (failed e) requesting b s = some (at (sending e) b s)
moved (failed e) (sending e') b s = none
moved put waiting b s = none
moved put requesting b s = none
moved put (sending e) none s = some (at waiting (some e) s)
moved put (sending e) (some e') s = none

unfoldable pub move : Move → App → Option App
unfolding moved
move m a = moved m a.loop a.buffer a.starting
