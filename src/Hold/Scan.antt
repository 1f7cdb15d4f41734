-- ===== src/Hold/Scan.antt =====
-- The loop of `evaluate` over the conditions: which of them trip, and whether one cannot be read.
use wqm.Prelude.{Bool, true, false, not, ◌||◌, Option, none, some, List, [], ◌∷◌, if◌then◌else◌}
use wqm.Prelude.Int.{ℤ, ltb_ℤ, leb_ℤ}
use wqm.Prelude.Texts.{String, has_name, find}
use wqm.Hold.Config.{Condition, Comparison, at_least, above, below}

-- One entry of the `reasons` that the state reports.
pub record Reason : Type 0 where
  pub sensor : String
  pub value : ℤ
  pub threshold : ℤ

-- The cycle's reading: a column that is absent, or holds no finite number, has no entry.
abbrev pub Reading : Type 0
Reading = List (String × ℤ)

-- _COLUMN_TO_SENSOR
abbrev pub column_to_sensor : List (String × String)
column_to_sensor =
    ("turbidity_ntu", "turbidity")
    ∷ ("tds_ppm", "tds")
    ∷ ("ph", "ph")
    ∷ ("flow_rate_gpm", "flow")
    ∷ []

abbrev names_suspended : Option String → List String → Bool
names_suspended none suspended = false
names_suspended (some sensor) suspended = has_name sensor suspended

unfoldable pub is_suspended : String → List String → Bool
unfolding has_name find
is_suspended column suspended =
    has_name column suspended || names_suspended (find column column_to_sensor) suspended

-- _COMPARE
unfoldable pub compare_by : Comparison → ℤ → ℤ → Bool
compare_by at_least v t = leb_ℤ t v
compare_by above v t = ltb_ℤ t v
compare_by below v t = ltb_ℤ v t

-- The value of a condition's column, if its probe can be read.
unfoldable pub readable : Reading → List String → Condition → Option ℤ
unfolding is_suspended find
readable reading suspended c =
    if is_suspended c.column suspended then none else find c.column reading

abbrev pub note : Condition → Option ℤ → List Reason × Bool → List Reason × Bool
note c none (tripping, unknown) = (tripping, true)
note c (some v) (tripping, unknown) = (
  if compare_by c.op v c.threshold
      then record { sensor = c.column; value = v; threshold = c.threshold } ∷ tripping
      else tripping,
  unknown,
)

unfoldable pub scan : Reading → List String → List Condition → List Reason × Bool
unfolding readable compare_by
scan reading suspended [] = ([], false)
scan reading suspended (c ∷ cs) = note c (readable reading suspended c) (scan reading suspended cs)

-- `if tripping`
abbrev pub is_some_reason : List Reason → Bool
is_some_reason [] = false
is_some_reason (_ ∷ _) = true

abbrev pub or_reasons : List Reason → List Reason → List Reason
or_reasons [] old = old
or_reasons (r ∷ rs) old = r ∷ rs

abbrev pub bool_ne : Bool → Bool → Bool
bool_ne true b = not b
bool_ne false b = b
