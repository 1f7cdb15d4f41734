-- ===== src/Ota.antt =====
-- The over-the-air agent of src/ota/agent.py: the disk of the unit, what a run of the agent does to it
-- effect by effect, and where a run may end. A release is known by the name of its directory.
pub mod Verify
pub mod Download
pub mod Apply
pub mod Cycle
mod Recovery
mod Rollback
mod Switch
mod Safety
mod Return
mod Linked
mod Genuine
mod Prune
mod SelfTest
mod Reboot
mod Tests
use wqm.Prelude.{
  ℕ, suc, Bool, true, false, not, Option, none, some, List, [], ◌∷◌, String, keep, if◌then◌else◌,
}
use wqm.Prelude.Texts.{str_eq}

pub data Phase : Type 0 where
  downloading verifying verify_failed applying self_test success failed rolled_back : Phase

-- `ota-state.json`, without its texts for the reader and its times
pub record StateFile : Type 0 where
  pub phase : Phase
  pub version : String
  pub previous : Option String

-- A directory under `releases` with the time of its last change.
pub record Release : Type 0 where
  pub name : String
  pub mtime : ℕ

-- `current` is the release that the link resolves to; a state file that is missing or cannot be parsed
-- is none.
pub record Disk : Type 0 where
  pub current : Option String
  pub state_file : Option StateFile
  pub releases : List Release
  pub bundle : Bool

pub data Effect : Type 0 where
  reports : Phase → String → Effect
  downloads : Effect
  unlinks_bundle : Effect
  removes : String → Effect
  extracts : Release → Effect
  renames : String → String → Effect
  compiles : String → Effect
  writes : StateFile → Effect
  flips : String → Effect
  restarts : Effect
  prunes : String → Effect

abbrev pub is_named : String → Release → Bool
is_named n r = str_eq r.name n

unfoldable renamed : String → String → List Release → List Release
renamed from to [] = []
renamed from to (r ∷ rs) =
    let rest = renamed from to rs in
    if is_named from r then record r { name = to } ∷ rest else r ∷ rest

unfoldable pub carry : Effect → Disk → Disk
unfolding renamed
carry (reports phase version) d = d
carry downloads d = record d { bundle = true }
carry unlinks_bundle d = record d { bundle = false }
carry (removes name) d = record d { releases = keep (λ r. not (is_named name r)) d.releases }
carry (extracts r) d = record d { releases = r ∷ d.releases }
carry (renames from to) d = record d { releases = renamed from to d.releases }
carry (compiles name) d = d
carry (writes s) d = record d { state_file = some s }
carry (flips name) d = record d { current = some name }
carry restarts d = d
carry (prunes name) d = record d { releases = keep (λ r. not (is_named name r)) d.releases }

-- What becomes of an effect: it is done, it fails, or the agent dies before it.
pub data Answer : Type 0 where
  done fails dies : Answer

pub data Ending : Type 0 where
  going raised died : Ending

pub record Run : Type 0 where
  pub disk : Disk
  pub count : ℕ
  pub ending : Ending

-- Whether a failure raises, or is caught where it arises.
abbrev pub raises : Effect → Bool
raises (reports phase version) = false
raises downloads = false
raises unlinks_bundle = false
raises (compiles name) = false
raises (writes s) = false
raises (prunes name) = false
raises _ = true

abbrev pub Answers : Type 0
Answers = ℕ → Effect → Answer

unfoldable pub answered : Answer → Effect → Run → Run
answered done e r = record { disk = carry e r.disk; count = suc r.count; ending = going }
answered fails e r = record {
  disk = r.disk;
  count = suc r.count;
  ending = if raises e then raised else going;
}
answered dies e r = record r { ending = died }

unfoldable pub play_on : Ending → Answers → Effect → Run → Run
play_on going answers e r = answered (answers r.count e) e r
play_on raised answers e r = r
play_on died answers e r = r

-- An effect of a run: nothing is done after an exception, until it is caught, or once the agent is dead.
abbrev pub play : Answers → Effect → Run → Run
play answers e r = play_on r.ending answers e r

unfoldable pub play_all : Answers → List Effect → Run → Run
play_all answers [] r = r
play_all answers (e ∷ es) r = play_all answers es (play answers e r)

abbrev pub begin : Disk → Run
begin d = record { disk = d; count = 0; ending = going }
