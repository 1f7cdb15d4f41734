-- ===== src/Hold/Tests.antt =====
-- The irrigation hold at concrete inputs: relay 3 holds above a turbidity of 5 NTU, after two samples,
-- for ten minutes.
use wqm.Prelude.{ℕ, ◌≡◌, refl, Bool, true, false, none, some, [], ◌∷◌, arith, leb}
use wqm.Prelude.Int.{pos}
use wqm.Prelude.Texts.{find, has_name}
use wqm.Relay
use wqm.Hold.Config.{
  HoldConfig, at_least, release, armed, conflict, default_config, from_settings, same_config,
}
use wqm.Hold.Scan.{Reading, scan, readable, is_suspended, compare_by}
use wqm.Hold.{Hold, init, evaluate, released, retry, judge, follow, on_tripping, on_clear, drive}
use wqm.Hold.Drive.{HasRelays}
use wqm.Hold.Invariant.{Inv, sample, settings, run, run-Inv}
use wqm.Hold.Safety.{fault_releases}
use wqm.Hold.Timing.{
  Sample, Trips, AllTrip, AllClear, all_within, findings, take_sample, take_all, release_exact,
  engage_exact,
}

abbrev works : ℕ → Bool
works _ = true

abbrev relays : Relay.Relays
relays = Relay.init works 60000

abbrev five_ntu : HoldConfig
five_ntu = record {
  enabled = true;
  relay = 3;
  thresholds =
      record {
        column = "turbidity_ntu";
        key = "irrigation_hold_turbidity_ntu";
        op = at_least;
        threshold = pos 50000;
      }
      ∷ [];
  trip_samples = 2;
  release = 600000;
  on_fault = release;
  interlock_relay = 1;
}

abbrev idle : Hold
idle = record (init (some relays)) { cfg = five_ntu; configured = true }

abbrev muddy : Reading
muddy = ("turbidity_ntu", pos 80000) ∷ []

abbrev clean : Reading
clean = ("turbidity_ntu", pos 1000) ∷ []

five_ntu-armed : armed five_ntu ≡ true
unfolding armed conflict
five_ntu-armed = refl

-- The settings of the same hold, as they are read.
read_settings :
    armed (
      from_settings (record {
        enabled = true;
        relay = 3;
        turbidity_ntu = pos 50000;
        tds_ppm = pos 0;
        ph_min = pos 0;
        ph_max = pos 0;
        flow_gpm_max = pos 0;
        trip_samples = 0;
        release_min = 10;
        on_fault = "release";
        interlock_relay = 1;
      }))
    ≡ true
unfolding armed conflict from_settings
read_settings = refl

run-Inv_example : Inv (
    run
      (init (some relays))
      (settings 0 five_ntu ∷ sample muddy none 10 70 ∷ sample muddy none 20 80 ∷ []))
run-Inv_example =
    run-Inv (some relays)
      (settings 0 five_ntu ∷ sample muddy none 10 70 ∷ sample muddy none 20 80 ∷ [])

idle-Inv : Inv idle
idle-Inv = record {
  holding_armed = λ e. cc;
  driven_real = λ e. cc;
  idle_none = λ _. refl;
  holding_since = λ e. cc;
  clear_holding = λ _. refl;
}

idle-HasRelays : HasRelays idle
unfolding Relay.init
idle-HasRelays = (relays, refl, λ _. refl)

turbidity_lost : (scan [] [] five_ntu.thresholds).1 ≡ true
unfolding scan readable is_suspended find has_name
turbidity_lost = refl

fault_releases_example :
    ((evaluate [] none 10 70 idle).holding ≡ false)
    × ((evaluate [] none 10 70 idle).driven ≡ false)
    × ((evaluate [] none 10 70 idle).fault ≡ some released)
fault_releases_example =
    fault_releases [] none 10 70 idle idle-Inv idle-HasRelays five_ntu-armed refl turbidity_lost

default-differs : same_config default_config five_ntu ≡ false
unfolding same_config
default-differs = refl

default-unarmed : armed default_config ≡ false
unfolding armed conflict
default-unarmed = refl

abbrev muddy_at : ℕ → Sample
muddy_at now = record { reading = muddy; suspended = none; now = now; stamp = now }

abbrev clean_at : ℕ → Sample
clean_at now = record { reading = clean; suspended = none; now = now; stamp = now }

-- A first muddy sample trips the engine that needs one only, and two clean ones follow.
abbrev eager : Hold
eager = record idle { cfg = record five_ntu { trip_samples = 1 } }

eager-armed : armed eager.cfg ≡ true
unfolding armed conflict
eager-armed = refl

eager-Trips : Trips eager (muddy_at 10)
unfolding findings scan readable is_suspended find has_name compare_by
eager-Trips = (refl, refl)

eager-holds : (take_sample eager (muddy_at 10)).holding ≡ true
unfolding take_sample evaluate retry judge follow on_tripping armed conflict scan readable
    is_suspended find has_name compare_by drive Relay.set Relay.init
eager-holds = refl

clean-AllClear : AllClear (take_sample eager (muddy_at 10)) (clean_at 1000 ∷ clean_at 601000 ∷ [])
unfolding findings scan readable is_suspended find has_name compare_by take_sample evaluate retry
    judge follow on_tripping on_clear armed conflict drive Relay.set Relay.init
clean-AllClear = ((refl, refl), ((refl, refl), tt))

release_exact_example :
    (take_all (take_sample eager (muddy_at 10)) (clean_at 1000 ∷ clean_at 601000 ∷ [])).holding
    ≡ all_within 1000 600000 (clean_at 1000 ∷ clean_at 601000 ∷ [])
release_exact_example =
    release_exact eager (muddy_at 10) (clean_at 1000) (clean_at 601000 ∷ []) eager-armed eager-Trips
      eager-holds clean-AllClear

twice-AllTrip : AllTrip idle (muddy_at 10 ∷ muddy_at 20 ∷ [])
unfolding findings scan readable is_suspended find has_name compare_by take_sample evaluate retry
    judge follow on_tripping armed conflict
twice-AllTrip = ((refl, refl), ((refl, refl), tt))

engage_exact_example : (take_all idle (muddy_at 10 ∷ muddy_at 20 ∷ [])).holding ≡ leb 2 2
engage_exact_example =
    engage_exact idle (muddy_at 10 ∷ muddy_at 20 ∷ []) five_ntu-armed (omega arith) refl refl
      twice-AllTrip
