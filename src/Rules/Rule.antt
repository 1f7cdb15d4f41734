-- ===== src/Rules/Rule.antt =====
-- `Rule`, the operators, and the threshold that a rule compares against, of src/control/rules.py.
-- A number is a decimal of four places (`Prelude.Int`). A resolved threshold has twelve places, so
-- that the width of an adaptive band is exact: four of the median, of k and of 1.4826 each.
use wqm.Prelude.{
  ℕ, Bool, true, false, not, ◌&&◌, Option, none, some, List, [], ◌∷◌, ltb, get_elem?, if◌then◌else◌,
  get_or,
}
use wqm.Prelude.Int.{ℤ, pos, ltb_ℤ, leb_ℤ, max_ℤ, abs, ◌+ℤ◌, ◌-ℤ◌, ◌*ℤ◌}
use wqm.Prelude.Texts.{String, find}

-- `other` is any text that _OPERATORS has no entry for.
pub data Operator : Type 0 where
  gt lt ge le eq other : Operator

pub record Rule : Type 0 where
  pub sensor : String
  pub operator : Operator
  pub relay : ℕ
  pub action_on : Bool
  pub threshold : Option ℤ
  pub adaptive_k : Option ℤ
  pub duration_s : ℕ

-- One hour's statistics of the water profile; `m` is there if it is a number.
pub record Stats : Type 0 where
  pub m : Option ℤ
  pub mad : ℤ

pub record Baseline : Type 0 where
  pub buckets : List (Option Stats)
  pub overall : Option Stats
  pub learning : Bool

abbrev pub Profile : Type 0
Profile = List (String × Baseline)

-- _SENSOR_TO_COLUMN
abbrev pub sensor_to_column : List (String × String)
sensor_to_column =
    ("ph", "ph")
    ∷ ("tds", "tds_ppm")
    ∷ ("turbidity", "turbidity_ntu")
    ∷ ("temperature", "temp_c")
    ∷ ("orp", "orp_mv")
    ∷ ("chlorine", "chlorine_mgl")
    ∷ ("conductivity", "conductivity_uscm")
    ∷ ("salinity", "salinity_ppt")
    ∷ ("flow", "flow_rate_gpm")
    ∷ []

abbrev swap : List (String × String) → List (String × String)
swap [] = []
swap ((a, b) ∷ d) = (b, a) ∷ swap d

-- _COLUMN_TO_PARAM
abbrev pub column_to_param : List (String × String)
column_to_param = swap sensor_to_column

-- _MAD_FLOORS
abbrev pub mad_floors : List (String × ℤ)
mad_floors =
    ("ph", pos 500)
    ∷ ("temp_c", pos 2000)
    ∷ ("tds_ppm", pos 50000)
    ∷ ("turbidity_ntu", pos 5000)
    ∷ ("orp_mv", pos 50000)
    ∷ ("chlorine_mgl", pos 500)
    ∷ ("conductivity_uscm", pos 100000)
    ∷ ("flow_rate_gpm", pos 500)
    ∷ []

abbrev pub mad_to_sigma : ℤ
mad_to_sigma = pos 14826

-- Four places to twelve.
abbrev pub twelve : ℤ → ℤ
twelve v = v *ℤ pos 100000000

abbrev bucket_at : List (Option Stats) → ℕ → Option Stats
bucket_at buckets hour = get_or (get_elem? buckets hour) none

abbrev or_overall : Option Stats → Option Stats → Option Stats
or_overall none overall = overall
or_overall (some s) overall = some s

abbrev rises : Operator → Bool
rises gt = true
rises ge = true
rises _ = false

-- The band around a median that is there.
unfoldable pub band : String → Operator → ℤ → ℤ → ℤ → ℤ
unfolding find ◌+ℤ◌ ◌-ℤ◌ ◌*ℤ◌
band column operator k m mad =
    let sigma =
      max_ℤ (mad *ℤ mad_to_sigma) (get_or (find column mad_floors) (pos 5000) *ℤ pos 10000) in
    if rises operator then twelve m +ℤ k *ℤ sigma else twelve m -ℤ k *ℤ sigma

abbrev band_of_stats : String → Operator → ℤ → Option Stats → Option ℤ
band_of_stats column operator k none = none
band_of_stats column operator k (some s) = elim s.m [
  | none ↦ none
  | some m ↦ some (band column operator k m s.mad)
]

abbrev band_of_baseline : String → Operator → ℤ → ℕ → Option Baseline → Option ℤ
band_of_baseline column operator k utc_hour none = none
band_of_baseline column operator k utc_hour (some b) =
    if b.learning
    then none
    else band_of_stats column operator k (or_overall (bucket_at b.buckets utc_hour) b.overall)

abbrev twelve_of : Option ℤ → Option ℤ
twelve_of none = none
twelve_of (some t) = some (twelve t)

-- `_resolve_threshold` at a UTC hour
unfoldable pub resolve_threshold : Profile → ℕ → Rule → Option ℤ
unfolding band find
resolve_threshold baselines utc_hour rule = elim rule.adaptive_k [
  | none ↦ twelve_of rule.threshold
  | some k ↦
      let param = get_or (find rule.sensor column_to_param) rule.sensor in
      band_of_baseline rule.sensor rule.operator k utc_hour (find param baselines)
]

-- _OPERATORS, on twelve places; two numbers are `==` when they are within 0.01.
unfoldable pub compare_by : Operator → ℤ → ℤ → Bool
unfolding ◌-ℤ◌
compare_by gt a b = ltb_ℤ b a
compare_by lt a b = ltb_ℤ a b
compare_by ge a b = leb_ℤ b a
compare_by le a b = leb_ℤ a b
compare_by eq a b = ltb (abs (a -ℤ b)) 10000000000
compare_by other a b = false

abbrev passes : Operator → ℤ → Option ℤ → Bool
passes operator v none = false
passes operator v (some t) = compare_by operator (twelve v) t

-- The rule's test on a reading: the sensor is there, the operator known, the threshold resolved.
unfoldable pub fires : Profile → ℕ → List (String × ℤ) → Rule → Bool
unfolding resolve_threshold compare_by find
fires baselines utc_hour reading rule = elim (find rule.sensor reading) [
  | none ↦ false
  | some v ↦ passes rule.operator v (resolve_threshold baselines utc_hour rule)
]

abbrev is_eq : Operator → Bool
is_eq eq = true
is_eq _ = false

-- What `add_rule` accepts.
unfoldable pub acceptable : Rule → Bool
acceptable rule = elim rule.adaptive_k [
  | some k ↦ not (is_eq rule.operator) && leb_ℤ (pos 5000) k && leb_ℤ k (pos 100000)
  | none ↦ elim rule.threshold [ none ↦ false | some _ ↦ true ]
]
