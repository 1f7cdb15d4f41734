-- ===== src/Ota/Tests.antt =====
-- The over-the-air agent at concrete inputs: an update from 2.0.0 to 2.1.0.
use wqm.Prelude.{
  ℕ, ◌+◌, ◌*◌, ◌≤◌, ◌≡◌, ◌⊎◌, refl, true, false, Option, none, some, List, [], ◌∷◌, String, leb,
  keep, Bool-cases, inl, inr, if◌then◌else◌,
}
use wqm.Prelude.Texts.{str_eq, has_name}
use wqm.Ota.{
  failed, Disk, restarts, Answers, done, fails, dies, going, raised, play_all, play_on, answered,
  carry,
}
use wqm.Ota.Verify.{
  Manifest, Target, Tools, verify, with_signature, with_key, with_manifest, load_public_key,
  from_fault, version_tuple, all_numbers, is_older, tuple_lt,
}
use wqm.Ota.Download.{response, download, receive, limit_of, stream}
use wqm.Ota.Apply.{
  record_of, recover_incomplete_apply, recovery_of, recovery_to, way_back, rollback, is_incomplete,
  apply, unpack, switch_to,
}
use wqm.Ota.Cycle.{
  Settings, Surroundings, Probe, assigned, at_phase, check_and_apply, self_tested, polled, offered,
  with_download, with_verdict, install, after_apply, after_test, fail_or_roll_back,
  installed_version, tested_from,
}
use wqm.Ota.Recovery.{Same, home_of, home}
use wqm.Ota.Rollback.{Writable}
use wqm.Ota.Safety.{offered_version}
use wqm.Ota.Return.{restarted, unit_comes_back}
use wqm.Ota.Genuine.{Installs, only_genuine_installed}
use wqm.Ota.Reboot.{Turn, requested, looked, take_turns, reboots_at_most_requests}

abbrev manifest : Manifest
manifest = record {
  product = some "wqm1";
  version = some "2.1.0";
  sha256 = "ab12";
  min_from_version = some "2.0.0";
  requires_deps = false;
}

abbrev target : Target
target = record {
  version = "2.1.0";
  has_url = true;
  size_bytes = 1000;
  manifest = some "{}";
  signature = some (7 ∷ []);
}

abbrev numbers : String → List (Option ℕ)
numbers s =
    if str_eq s "2.0.0" then some 2 ∷ some 0 ∷ some 0 ∷ [] else some 2 ∷ some 1 ∷ some 0 ∷ []

abbrev tools : Tools
tools = record {
  key_files = none ∷ some "key" ∷ [];
  is_signed = λ text signature key. true;
  parse = λ text. some manifest;
  numbers = numbers;
  digest = "ab12";
  tar_error = false;
}

-- The unit is up again 25 s after the restart.
abbrev probe : ℕ → Probe
probe n = record {
  active = true;
  fresh_reading = false;
  fresh_liveness = leb 3 n;
  clock = 500000 + n * 10000;
}

abbrev env : Surroundings
env = record {
  poll = assigned target;
  answer = response 1000 90000 (some 600 ∷ some 400 ∷ []);
  tools = tools;
  mtime = 30;
  version_file = λ name. some name;
  started = 500000;
  probe = probe;
}

abbrev cfg : Settings
cfg = record { firmware_version = "2.0.0"; max_bundle = 50000; timeout = 60000; keep_releases = 2 }

abbrev disk : Disk
disk = record {
  current = some "2.0.0";
  state_file = none;
  releases = record { name = "2.0.0"; mtime = 20 } ∷ record { name = "1.9.0"; mtime = 10 } ∷ [];
  bundle = false;
}

abbrev all_done : Answers
all_done n e = done

-- The agent dies once it has flipped the link, before it restarts the services.
abbrev cut_short : Answers
cut_short n e = if leb 9 n then dies else done

Writable-cut_short : Writable cut_short
Writable-cut_short n s h = elim (Bool-cases (leb 9 n)) [
  | inl e ↦ let same : dies ≡ fails = rw e at h in cc
  | inr e ↦ let same : done ≡ fails = rw e at h in cc
]

recovers_here :
    (recover_incomplete_apply all_done
      (restarted (cut_short ∷ []) (check_and_apply cfg env cut_short disk).1.disk)).ending
    ≡ going
unfolding recover_incomplete_apply recovery_of recovery_to way_back rollback is_incomplete record_of
    restarted check_and_apply polled offered with_download with_verdict install apply unpack
    switch_to after_apply after_test fail_or_roll_back installed_version play_all play_on answered
    carry verify with_signature with_key with_manifest load_public_key from_fault version_tuple
    all_numbers is_older tuple_lt download receive limit_of stream keep has_name
recovers_here = refl

stays_here : home disk ≡ some "2.0.0"
unfolding home_of
stays_here = refl

unit_comes_back_example :
    let r =
      recover_incomplete_apply all_done
        (restarted (cut_short ∷ []) (check_and_apply cfg env cut_short disk).1.disk) in
    (r.disk.current ≡ some "2.0.0")
    ⊎ ((self_tested cfg env ≡ some true) × (r.disk.current ≡ some (offered_version env.poll)))
unit_comes_back_example =
    unit_comes_back cfg env cut_short "2.0.0" disk (cut_short ∷ []) all_done refl Writable-cut_short
      refl stays_here recovers_here

only_genuine_installed_example :
    Same disk (check_and_apply cfg env all_done disk).1.disk
    ⊎ Installs cfg env disk (check_and_apply cfg env all_done disk).1.disk
only_genuine_installed_example = only_genuine_installed cfg env all_done disk

-- The self-test passes at its fourth turn.
passed_at_fourth : self_tested cfg env ≡ some true
unfolding self_tested tested_from
passed_at_fourth = refl

-- A restart of the services that raises leaves the link at the version whose update is said to have
-- failed, and the state file at the update; the next start of the agent flips the link back.
abbrev no_restart : Answers
no_restart n restarts = fails
no_restart n _ = done

said_failed :
    let out = check_and_apply cfg env no_restart disk in
    (out.0 ≡ at_phase failed) × (out.1.disk.current ≡ some "2.1.0")
unfolding check_and_apply polled offered with_download with_verdict install apply unpack switch_to
    after_apply after_test fail_or_roll_back installed_version play_all play_on answered carry
    verify with_signature with_key with_manifest load_public_key from_fault version_tuple
    all_numbers is_older tuple_lt download receive limit_of stream keep has_name record_of
said_failed = (refl, refl)

-- A roll-back whose services cannot be restarted raises out of the cycle.
abbrev never_up : Surroundings
never_up = record env { probe = λ n. record (probe n) { active = false } }

abbrev second_restart_fails : Answers
second_restart_fails n restarts = if leb 12 n then fails else done
second_restart_fails n _ = done

raised_out : (check_and_apply cfg never_up second_restart_fails disk).1.ending ≡ raised
unfolding check_and_apply polled offered with_download with_verdict install apply unpack switch_to
    after_apply after_test fail_or_roll_back installed_version play_all play_on answered carry
    verify with_signature with_key with_manifest load_public_key from_fault version_tuple
    all_numbers is_older tuple_lt download receive limit_of stream keep has_name record_of
    self_tested tested_from rollback
raised_out = refl

-- Two requests, of which the second is stale when the agent comes to it.
abbrev turns : List Turn
turns =
    requested 100
    ∷ looked (record { now = 102; unlinks = true; orders = false })
    ∷ looked (record { now = 103; unlinks = true; orders = true })
    ∷ requested 200
    ∷ looked (record { now = 900; unlinks = true; orders = true })
    ∷ []

reboots_at_most_requests_example :
    let t = take_turns turns (record { flag = none; asked = 0; ordered = 0 }) in t.ordered ≤ t.asked
reboots_at_most_requests_example = reboots_at_most_requests turns
