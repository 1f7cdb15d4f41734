-- ===== src/Hold/Config.antt =====
-- The settings snapshot of src/control/irrigation_hold.py: `CONDITIONS` and `HoldConfig`.
use Prim.Native.Nat.{◌*◌}
use wqm.Prelude.{
  ℕ, Bool, true, false, not, ◌&&◌, List, [], ◌∷◌, leb, max, ◌==◌, if◌then◌else◌, keep,
}
use wqm.Prelude.Int.{ℤ, pos, ltb_ℤ, eq_ℤ}
use wqm.Prelude.Texts.{String, str_eq}

pub data Comparison : Type 0 where
  at_least above below : Comparison

pub record Condition : Type 0 where
  pub column : String
  pub key : String
  pub op : Comparison
  pub threshold : ℤ

pub data OnFault : Type 0 where
  release hold : OnFault

-- The `irrigation_hold_*` settings and the interlock's, as `Settings` types them.
pub record Settings : Type 0 where
  pub enabled : Bool
  pub relay : ℕ
  pub turbidity_ntu : ℤ
  pub tds_ppm : ℤ
  pub ph_min : ℤ
  pub ph_max : ℤ
  pub flow_gpm_max : ℤ
  pub trip_samples : ℕ
  pub release_min : ℕ
  pub on_fault : String
  pub interlock_relay : ℕ

pub record HoldConfig : Type 0 where
  pub enabled : Bool
  pub relay : ℕ
  pub thresholds : List Condition
  pub trip_samples : ℕ
  pub release : ℕ
  pub on_fault : OnFault
  pub interlock_relay : ℕ

-- CONDITIONS, each with the number that its settings key holds.
unfoldable pub conditions : Settings → List Condition
conditions s =
    record {
      column = "turbidity_ntu";
      key = "irrigation_hold_turbidity_ntu";
      op = at_least;
      threshold = s.turbidity_ntu;
    }
    ∷ record {
      column = "tds_ppm";
      key = "irrigation_hold_tds_ppm";
      op = at_least;
      threshold = s.tds_ppm;
    }
    ∷ record { column = "ph"; key = "irrigation_hold_ph_min"; op = below; threshold = s.ph_min }
    ∷ record { column = "ph"; key = "irrigation_hold_ph_max"; op = above; threshold = s.ph_max }
    ∷ record {
      column = "flow_rate_gpm";
      key = "irrigation_hold_flow_gpm_max";
      op = at_least;
      threshold = s.flow_gpm_max;
    }
    ∷ []

abbrev is_set : Condition → Bool
is_set c = ltb_ℤ (pos 0) c.threshold

-- A minute in ticks.
abbrev pub minute : ℕ
minute = 60000

unfoldable pub from_settings : Settings → HoldConfig
unfolding conditions keep
from_settings s = record {
  enabled = s.enabled;
  relay = s.relay;
  thresholds = keep is_set (conditions s);
  trip_samples = max 1 s.trip_samples;
  release = s.release_min * minute;
  on_fault = if str_eq s.on_fault "hold" then hold else release;
  interlock_relay = s.interlock_relay;
}

abbrev pub on_relay : HoldConfig → Bool
on_relay c = c.enabled && leb 1 c.relay && leb c.relay 4

-- The hold's channel is the smart breaker's interlock.
unfoldable pub conflict : HoldConfig → Bool
conflict c = on_relay c && c.relay == c.interlock_relay

unfoldable pub armed : HoldConfig → Bool
unfolding conflict
armed c = on_relay c && not (conflict c)

abbrev pub default_config : HoldConfig
default_config = record {
  enabled = false;
  relay = 0;
  thresholds = [];
  trip_samples = 2;
  release = 10 * minute;
  on_fault = release;
  interlock_relay = 0;
}

-- The equality of the frozen dataclass.
abbrev same_op : Comparison → Comparison → Bool
same_op at_least at_least = true
same_op above above = true
same_op below below = true
same_op _ _ = false

abbrev same_fault : OnFault → OnFault → Bool
same_fault release release = true
same_fault hold hold = true
same_fault _ _ = false

abbrev same_bool : Bool → Bool → Bool
same_bool true b = b
same_bool false b = not b

unfoldable pub same_conditions : List Condition → List Condition → Bool
same_conditions [] [] = true
same_conditions (c ∷ cs) (d ∷ ds) =
    str_eq c.column d.column
    && str_eq c.key d.key
    && same_op c.op d.op
    && eq_ℤ c.threshold d.threshold
    && same_conditions cs ds
same_conditions _ _ = false

unfoldable pub same_config : HoldConfig → HoldConfig → Bool
unfolding same_conditions
same_config c d =
    same_bool c.enabled d.enabled
    && c.relay == d.relay
    && same_conditions c.thresholds d.thresholds
    && c.trip_samples == d.trip_samples
    && c.release == d.release
    && same_fault c.on_fault d.on_fault
    && c.interlock_relay == d.interlock_relay
