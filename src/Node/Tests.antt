-- ===== src/Node/Tests.antt =====
-- One unit at a concrete history.
use wqm.Prelude.{◌≡◌, refl, true, false, some, List, [], ◌∷◌}
use wqm.Prelude.Int.{pos}
use wqm.Rules.{Moment}
use wqm.Relay
use wqm.Relay.{is_on}
use wqm.Hold
use wqm.Hold.{owns, configure, let_go, take_over, drive, retry, judge, follow, on_tripping}
use wqm.Hold.Scan.{Reading, scan}
use wqm.Hold.Config.{HoldConfig, above, hold, same_config, armed, conflict}
use wqm.Node.{
  Event, starts, ends, reloads, samples, commands, downlinks, acts, threads, live, happen, reload,
  act_at, check_command,
}
use wqm.Node.Fine.{Fine}
use wqm.Node.Threads.{fresh}

abbrev settings : HoldConfig
settings = record {
  enabled = true;
  relay = 2;
  thresholds =
      record { column = "ph"; key = "irrigation_hold_ph_max"; op = above; threshold = pos 80000 }
      ∷ [];
  trip_samples = 1;
  release = 600000;
  on_fault = hold;
  interlock_relay = 0;
}

abbrev noon : Moment
noon = record { mono = 5000; time_of_day = 720; hour = 12; utc_hour = 12 }

abbrev acid : Reading
acid = ("ph", pos 90000) ∷ []

-- A command for relay 1 has passed its check when a cycle begins; the pH trips the hold on relay 2 in it,
-- and the command acts before it is over. Then a downlink tries relay 2, and a late thread fires.
abbrev history : List Event
history =
    reloads 1000 settings
    ∷ commands 1 true 0
    ∷ starts
    ∷ ends acid (some []) noon
    ∷ reloads 5000 settings
    ∷ acts 5500 0
    ∷ samples acid true (some []) 5000 5
    ∷ downlinks 100 (2 ∷ 0 ∷ 0 ∷ 0 ∷ [])
    ∷ threads 2 0 refl
    ∷ []

-- A command for relay 2 passes its check; the hold is then given relay 2 and trips, and the command
-- switches its coil off.
abbrev race : List Event
race =
    commands 2 false 0
    ∷ reloads 1000 settings
    ∷ samples acid true (some []) 5000 5
    ∷ acts 6000 0
    ∷ []

race_drops :
    ((live race (fresh 3600000)).hold.driven ≡ true)
    × (is_on 2 (live race (fresh 3600000)).relays ≡ false)
unfolding live happen check_command owns reload configure same_config armed conflict let_go
    take_over Relay.set Relay.init act_at wqm.Node.ask_at wqm.Node.sample_hold wqm.Node.act
    Hold.evaluate retry follow judge scan is_on Relay.test_bit Relay.clear_bit Relay.set_bit
race_drops = (refl, refl)
