-- ===== src/Sensing/Statistics.antt =====
-- The statistics that src/sensing/monitor.py takes of a window, exact where the source rounds: a median
-- is held doubled, so that the mean of the two middle values is a whole number.
use wqm.Prelude.{
  ℕ, ◌+◌, ◌-◌, ◌*◌, ◌/◌, leb, max, Bool, List, [], ◌∷◌, ◌++◌, map, length, drop, get_elem?, get_or,
  if◌then◌else◌,
}
use wqm.Prelude.Int.{ℤ, pos, ◌+ℤ◌, ◌-ℤ◌, leb_ℤ, abs}

unfoldable pub insert_ℤ : ℤ → List ℤ → List ℤ
insert_ℤ v [] = v ∷ []
insert_ℤ v (x ∷ xs) = let rest = insert_ℤ v xs in if leb_ℤ v x then v ∷ x ∷ xs else x ∷ rest

unfoldable pub sorted : List ℤ → List ℤ
sorted [] = []
sorted (v ∷ vs) = insert_ℤ v (sorted vs)

abbrev at : List ℤ → ℕ → ℤ
at vs i = get_or (get_elem? vs i) (pos 0)

-- `2 * statistics.median(values)`, of values that are not none
unfoldable pub median2 : List ℤ → ℤ
median2 vs = let s = sorted vs in at s ((length vs - 1) / 2) +ℤ at s (length vs / 2)

abbrev total : List ℤ → ℤ
total [] = pos 0
total (v ∷ vs) = v +ℤ total vs

abbrev squares : List ℤ → ℕ
squares [] = 0
squares (v ∷ vs) = abs v * abs v + squares vs

-- `statistics.pstdev(values) >= floor`, multiplied out
unfoldable pub is_noisy : ℕ → List ℤ → Bool
is_noisy floor vs =
    leb (length vs * length vs * (floor * floor) + abs (total vs) * abs (total vs))
      (length vs * squares vs)

abbrev double : ℤ → ℤ
double v = v +ℤ v

-- How far a value is from half of a doubled median, doubled.
abbrev away2 : ℤ → ℤ → ℤ
away2 m2 v = pos (abs (double v -ℤ m2))

-- `abs(z) >= threshold` for the robust z-score: 0.6745 times the distance from the median, in units of
-- the median distance, but of no less than half the noise floor.
unfoldable pub is_outlier : ℕ → ℕ → List ℤ → ℤ → Bool
is_outlier floor threshold vs v =
    let m2 = median2 vs in
    let mad4 = abs (median2 (map (away2 m2) vs)) in
    leb (threshold * max mad4 (2 * floor)) (2 * 6745 * abs (away2 m2 v))

-- `deque(maxlen=n)`: the oldest goes where a new one has no room.
unfoldable pub push {ℓ} : {A : Type ℓ} → ℕ → A → List A → List A
push n x xs = let ys = xs ++ x ∷ [] in drop (length ys - n) ys
