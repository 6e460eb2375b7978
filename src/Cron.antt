-- ===== src/Cron.antt =====
-- src/tables/write-cron.service.ts: the supervisor that starts the sweeps of the connections; and
-- src/tables/stale-load.cron.ts, which marks the loads that hang.
pub mod Flights
mod Tests
use yalia_sii.Prelude.{
  ℕ, suc, ◌+◌, ◌-◌, ◌*◌, String, Bool, true, false, not, ◌&&◌, Option, none, some, List, [], ◌∷◌,
  ◌++◌, map, ◌≡◌, ◌==◌, ltb, if◌then◌else◌, has, keep, is_some,
}
use yalia_sii.Template.{TableTemplate}
use yalia_sii.Rules.{or_value}
use yalia_sii.Loads.{TableLoad}
use yalia_sii.Outbound.{Trigger, schedule}
use yalia_sii.Connections.{SourceConnection, list_write_cron_connections}

-- The service, and the connections of the sweeps that have not ended, each once for a sweep.
pub record WriteCron : Type 0 where
  pub tick_in_progress : Bool
  pub last_run : List (String × ℕ)
  pub running : List String
  pub in_flight : List String

-- `lastRun.get(id) ?? 0`
unfoldable pub last_run_of : String → List (String × ℕ) → ℕ
last_run_of id [] = 0
last_run_of id ((i, t) ∷ m) = if i == id then t else last_run_of id m

-- The body of the loop. The clock and the intervals are in milliseconds and seconds; an interval is
-- not 0, so that a clock that went back is not due either way.
unfoldable pub dispatch_one : ℕ → String × ℕ → WriteCron → WriteCron
unfolding last_run_of
dispatch_one now (id, interval_sec) s =
    if has id s.running
    then s
    else if ltb (now - last_run_of id s.last_run) (interval_sec * 1000)
    then s
    else record s {
      last_run = (id, now) ∷ s.last_run;
      running = id ∷ s.running;
      in_flight = s.in_flight ++ id ∷ [];
    }

unfoldable pub dispatch_due : ℕ → List (String × ℕ) → WriteCron → WriteCron
unfolding dispatch_one
dispatch_due now [] s = s
dispatch_due now (c ∷ conns) s = dispatch_due now conns (dispatch_one now c s)

-- One sweep less.
unfoldable pub remove_one : String → List String → List String
remove_one id [] = []
remove_one id (i ∷ is) = let rest = remove_one id is in if i == id then is else i ∷ rest

-- `.finally(() => this.running.delete(id))`
unfoldable pub settle_sweep : String → WriteCron → WriteCron
unfolding remove_one
settle_sweep id s = record s {
  running = keep (λ i. not (i == id)) s.running;
  in_flight = remove_one id s.in_flight;
}

-- What can happen: a tick begins and reads the connections; it goes on with what it has read, or
-- fails; a sweep ends. A tick that finds another one in progress does nothing.
pub data SweepStep : WriteCron → WriteCron → Type 0 where
  begin :
      (s s' : WriteCron)
      → s.tick_in_progress ≡ false
      → s' ≡ record s { tick_in_progress = true }
      → SweepStep s s'
  overlap : (s s' : WriteCron) → s.tick_in_progress ≡ true → s' ≡ s → SweepStep s s'
  go_on :
      (now : ℕ) (connections : List SourceConnection) (s s' : WriteCron)
      → s.tick_in_progress ≡ true
      → s' ≡ record (dispatch_due now (list_write_cron_connections connections) s) {
        tick_in_progress = false;
      }
      → SweepStep s s'
  give_up :
      (s s' : WriteCron)
      → s.tick_in_progress ≡ true
      → s' ≡ record s { tick_in_progress = false }
      → SweepStep s s'
  end_sweep :
      (id : String) (s s' : WriteCron)
      → has id s.in_flight ≡ true
      → s' ≡ settle_sweep id s
      → SweepStep s s'

pub data SweepReach : WriteCron → Type 0 where
  start :
      SweepReach (record { tick_in_progress = false; last_run = []; running = []; in_flight = [] })
  step : (s s' : WriteCron) → SweepReach s → SweepStep s s' → SweepReach s'

-- sweepConnection, with submitAllQueued as the state that it leaves, whether it throws or not.
module _ {S : Type 0} (submit_all_queued : TableTemplate → Trigger → String → S → S) where
  unfoldable pub is_scheduled : TableTemplate → Bool
  is_scheduled t = elim t.write [ none ↦ false | some w ↦ w.scheduled ]

  submit_each : String → List TableTemplate → S → S
  submit_each id [] s = s
  submit_each id (t ∷ ts) s = submit_each id ts (submit_all_queued t schedule id s)

  unfoldable pub sweep_connection : String → List TableTemplate → S → S
  unfolding submit_each is_scheduled
  sweep_connection id templates s = submit_each id (keep is_scheduled templates) s

-- `sealed_at IS NULL AND stale_at IS NULL AND created_at < now() - timeout`
unfoldable pub hangs : ℕ → ℕ → TableLoad → Bool
hangs timeout now l =
    not (is_some l.sealed_at) && not (is_some l.stale_at) && ltb (l.created_at + timeout) now

unfoldable pub reap : ℕ → ℕ → List TableLoad → List TableLoad
unfolding hangs
reap timeout now loads =
    map (λ (l : TableLoad). if hangs timeout now l then record l { stale_at = some now } else l)
      loads
