-- ===== src/Cron/Tests.antt =====
-- A supervisor with concrete connections, and the theorem about it.
use yalia_sii.Prelude.{
  ℕ, String, true, false, ◌≡◌, refl, none, some, List, [], ◌∷◌, has, if◌then◌else◌,
}
use yalia_sii.Loads.{TableLoad}
use yalia_sii.Connections.{SourceConnection, list_write_cron_connections}
use yalia_sii.Cron.{
  WriteCron, last_run_of, dispatch_one, dispatch_due, remove_one, settle_sweep, begin, go_on,
  SweepReach, start, step, hangs, reap,
}
use yalia_sii.Cron.Flights.{flights, SweepReach-single}

abbrev connection : String → ℕ → SourceConnection
connection i sec = record {
  id = i;
  name = i;
  clave = "";
  write_cron_interval_sec = some sec;
  concurrency = none;
  base_url = "https://a";
  credentials_encrypted = "";
  default_headers = [];
  handshake = none;
  active = true;
  sii_callback_secret_encrypted = "";
}

abbrev connections : List SourceConnection
connections = connection "a" 60 ∷ connection "b" 0 ∷ connection "c" 600 ∷ []

abbrev idle : WriteCron
idle = record { tick_in_progress = false; last_run = []; running = []; in_flight = [] }

abbrev ticking : WriteCron → WriteCron
ticking s = record s { tick_in_progress = true }

abbrev after_tick : ℕ → WriteCron → WriteCron
after_tick now s = record (dispatch_due now (list_write_cron_connections connections) (ticking s)) {
  tick_in_progress = false;
}

-- The second tick finds the sweep of "a" still in flight, the third starts it anew.
first_tick : (after_tick 700000 idle).in_flight ≡ "a" ∷ "c" ∷ []
unfolding dispatch_due dispatch_one last_run_of list_write_cron_connections
first_tick = refl

second_tick : (after_tick 800000 (after_tick 700000 idle)).in_flight ≡ "a" ∷ "c" ∷ []
unfolding dispatch_due dispatch_one last_run_of list_write_cron_connections
second_tick = refl

third_tick :
    (after_tick 800000 (settle_sweep "a" (after_tick 700000 idle))).in_flight ≡ "c" ∷ "a" ∷ []
unfolding dispatch_due dispatch_one last_run_of list_write_cron_connections settle_sweep remove_one
third_tick = refl

reach_tick : SweepReach (after_tick 700000 idle)
reach_tick =
    step (ticking idle) (after_tick 700000 idle)
      (step idle (ticking idle) start (begin idle (ticking idle) refl refl))
      (go_on 700000 connections (ticking idle) (after_tick 700000 idle) refl refl)

SweepReach-single_example :
    flights "a" (after_tick 700000 idle).in_flight
    ≡ (if has "a" (after_tick 700000 idle).running then 1 else 0)
SweepReach-single_example = SweepReach-single (after_tick 700000 idle) reach_tick "a"

abbrev load : TableLoad
load = record {
  load_id = "l";
  table_key = "invoices";
  connection_id = none;
  expected_batches = some 2;
  created_at = 10;
  sealed_at = none;
  stale_at = none;
}

reap_run :
    reap 20 31 (load ∷ record load { sealed_at = some 12 } ∷ [])
    ≡ record load { stale_at = some 31 } ∷ record load { sealed_at = some 12 } ∷ []
unfolding reap hangs
reap_run = refl
