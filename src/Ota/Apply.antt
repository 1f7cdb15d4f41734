-- ===== src/Ota/Apply.antt =====
-- `_apply`, `_rollback`, `_prune_releases` and `recover_incomplete_apply` of src/ota/agent.py, as the
-- effects that they have in order.
use wqm.Prelude.{
  ℕ, ltb, max, Bool, true, false, ◌||◌, Option, none, some, List, [], ◌∷◌, ◌++◌, String, take,
  if◌then◌else◌,
}
use wqm.Prelude.Texts.{str_eq, has_name}
use wqm.Ota.{
  Phase, applying, self_test, failed, rolled_back, StateFile, Release, Disk, Effect, reports,
  removes, extracts, renames, compiles, writes, flips, restarts, prunes, Answers, Run, play_all,
  begin,
}
use Prim.Native.String.{◌++◌ as ◌<>◌}

abbrev pub names : List Release → List String
names [] = []
names (r ∷ rs) = r.name ∷ names rs

abbrev pub if_there : String → Disk → List Effect
if_there name d = if has_name name (names d.releases) then removes name ∷ [] else []

unfoldable pub record_of : Phase → String → Option String → StateFile
record_of phase version previous = record { phase = phase; version = version; previous = previous }

-- The release is unpacked beside the others, compiled, and noted in the state file with the one that it
-- replaces; then the link is flipped to it.
unfoldable pub unpack : String → ℕ → Disk → List Effect
unpack version mtime d =
    let staging = version <> ".staging" in
    if_there staging d
    ++ (extracts (record { name = staging; mtime = mtime })
        ∷ (if_there version d ++ (renames staging version ∷ compiles version ∷ [])))

unfoldable pub switch_to : String → Option String → List Effect
switch_to version previous =
    writes (record_of applying version previous) ∷ flips version ∷ restarts ∷ []

unfoldable pub apply : Answers → String → ℕ → Run → Run
apply answers version mtime r =
    play_all answers (unpack version mtime r.disk ++ switch_to version r.disk.current) r

unfoldable pub rollback : String → String → List Effect
rollback previous version =
    flips previous
    ∷ restarts
    ∷ writes (record_of rolled_back version (some previous))
    ∷ reports rolled_back version
    ∷ []

-- `entries.sort(key=mtime, reverse=True)`, which keeps the order of equal times
unfoldable pub insert : Release → List Release → List Release
insert r [] = r ∷ []
insert r (x ∷ xs) = let rest = insert r xs in if ltb r.mtime x.mtime then x ∷ rest else r ∷ x ∷ xs

unfoldable pub newest_first : List Release → List Release
newest_first [] = []
newest_first (r ∷ rs) = insert r (newest_first rs)

unfoldable pub prune_old : List String → List String → List Release → List Effect
prune_old kept protect [] = []
prune_old kept protect (r ∷ rs) =
    let rest = prune_old kept protect rs in
    if has_name r.name kept || has_name r.name protect then rest else prunes r.name ∷ rest

unfoldable pub prune_releases : ℕ → List String → Disk → List Effect
prune_releases keep_releases protect d =
    let entries = newest_first d.releases in
    prune_old (names (take (max keep_releases 1) entries)) protect entries

-- `phase in _INCOMPLETE_PHASES`
unfoldable pub is_incomplete : Phase → Bool
is_incomplete applying = true
is_incomplete self_test = true
is_incomplete _ = false

-- The release to go back to, where the link still resolves to the version whose update was cut short.
unfoldable pub way_back : Option String → StateFile → Option String
way_back none s = none
way_back (some current) s = if str_eq current s.version then s.previous else none

unfoldable pub recovery_to : String → Option String → List Effect
recovery_to version none = writes (record_of failed version none) ∷ reports failed version ∷ []
recovery_to version (some previous) = rollback previous version

unfoldable pub recovery_of : Option String → Option StateFile → List Effect
recovery_of current none = []
recovery_of current (some s) =
    if is_incomplete s.phase then recovery_to s.version (way_back current s) else []

unfoldable pub recover_incomplete_apply : Answers → Disk → Run
recover_incomplete_apply answers d = play_all answers (recovery_of d.current d.state_file) (begin d)
