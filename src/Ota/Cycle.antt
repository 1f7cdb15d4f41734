-- ===== src/Ota/Cycle.antt =====
-- `check_and_apply` and `_self_test` of src/ota/agent.py. What the cloud, the bundle, systemd, the
-- database and the clock answer is the surroundings; a run that has died has no phase to return.
use wqm.Prelude.{
  ℕ, zero, suc, ◌+◌, ◌/◌, leb, Bool, true, false, ◌&&◌, ◌||◌, Option, none, some, List, [], ◌∷◌,
  String, if◌then◌else◌,
}
use wqm.Prelude.Texts.{str_eq}
use wqm.Ota.{
  Phase, downloading, verifying, verify_failed, applying, self_test, success, failed, rolled_back,
  Disk, reports, downloads, unlinks_bundle, writes, Answers, Ending, going, raised, died, Run,
  play_all, begin,
}
use wqm.Ota.Verify.{Target, Tools, Verdict, verified, refused, verify}
use wqm.Ota.Download.{Response, download}
use wqm.Ota.Apply.{record_of, apply, rollback, prune_releases}

-- What one turn of the self-test finds, and the clock after it.
pub record Probe : Type 0 where
  pub active : Bool
  pub fresh_reading : Bool
  pub fresh_liveness : Bool
  pub clock : ℕ

pub data Poll : Type 0 where
  unanswered : Poll
  unassigned : Poll
  assigned : Target → Poll

pub record Surroundings : Type 0 where
  pub poll : Poll
  pub answer : Response
  pub tools : Tools
  pub mtime : ℕ
  pub version_file : String → Option String
  pub started : ℕ
  pub probe : ℕ → Probe

pub record Settings : Type 0 where
  pub firmware_version : String
  pub max_bundle : ℕ
  pub timeout : ℕ
  pub keep_releases : ℕ

pub data Returned : Type 0 where
  in_error idle : Returned
  at_phase : Phase → Returned

unfoldable pub installed_version : Settings → Surroundings → Option String → String
installed_version cfg env none = cfg.firmware_version
installed_version cfg env (some current) = elim (env.version_file current) [
  | none ↦ cfg.firmware_version
  | some version ↦ version
]

abbrev pub poll_ms : ℕ
poll_ms = 10000

abbrev pub passes : Probe → Bool
passes p = p.active && (p.fresh_reading || p.fresh_liveness)

-- The turns of the self-test from the n-th on; none where it has not ended within the fuel.
unfoldable pub tested_from : (ℕ → Probe) → ℕ → ℕ → ℕ → Option Bool
tested_from probe deadline zero n = none
tested_from probe deadline (suc fuel) n =
    let rest = tested_from probe deadline fuel (suc n) in
    if passes (probe n)
    then some true
    else if leb deadline (probe n).clock
    then some false
    else rest

unfoldable pub self_tested : Settings → Surroundings → Option Bool
self_tested cfg env =
    tested_from env.probe (env.started + cfg.timeout) (cfg.timeout / poll_ms + 2) 0

abbrev pub protected : String → Option String → List String
protected version none = version ∷ []
protected version (some previous) = version ∷ previous ∷ []

unfoldable pub fail_or_roll_back : Answers → String → Option String → Run → Returned × Run
fail_or_roll_back answers version none r = (
  at_phase failed,
  play_all answers (reports failed version ∷ writes (record_of failed version none) ∷ []) r,
)
fail_or_roll_back answers version (some previous) r =
    (at_phase rolled_back, play_all answers (rollback previous version) r)

-- A self-test that has not ended leaves the run where it is.
unfoldable pub after_test :
    Settings → Answers → String → Option String → Option Bool → Run → Returned × Run
after_test cfg answers version previous none r = (at_phase self_test, record r { ending = died })
after_test cfg answers version previous (some true) r =
    let told =
      play_all answers (reports success version ∷ writes (record_of success version none) ∷ []) r in
    (
      at_phase success,
      play_all answers (prune_releases cfg.keep_releases (protected version previous) told.disk)
          told,
    )
after_test cfg answers version previous (some false) r =
    fail_or_roll_back answers version previous r

-- Both the handler and the `finally` clause remove the bundle.
unfoldable pub after_apply :
    Ending → Settings → Surroundings → Answers → String → Option String → Run → Returned × Run
after_apply going cfg env answers version previous r =
    after_test cfg answers version previous (self_tested cfg env) (
      play_all answers
        (unlinks_bundle
          ∷ writes (record_of self_test version previous)
          ∷ reports self_test version
          ∷ [])
        r)
after_apply raised cfg env answers version previous r = (
  at_phase failed,
  play_all answers (reports failed version ∷ unlinks_bundle ∷ unlinks_bundle ∷ [])
      (record r { ending = going }),
)
after_apply died cfg env answers version previous r = (at_phase applying, r)

unfoldable pub install : Settings → Surroundings → Answers → String → Run → Returned × Run
install cfg env answers version r =
    let told = play_all answers (reports applying version ∷ []) r in
    let tried = apply answers version env.mtime told in
    after_apply tried.ending cfg env answers version told.disk.current tried

unfoldable pub with_verdict :
    Settings → Surroundings → Answers → String → Verdict → Run → Returned × Run
with_verdict cfg env answers version refused r = (
  at_phase verify_failed,
  play_all answers (reports verify_failed version ∷ unlinks_bundle ∷ []) r,
)
with_verdict cfg env answers version (verified m) r =
    if m.requires_deps
    then (at_phase failed, play_all answers (reports failed version ∷ unlinks_bundle ∷ []) r)
    else install cfg env answers version r

-- A download that raises leaves no bundle.
unfoldable pub with_download :
    Settings → Surroundings → Answers → Target → Option ℕ → Run → Returned × Run
with_download cfg env answers target none r =
    (at_phase failed, play_all answers (reports failed target.version ∷ []) r)
with_download cfg env answers target (some written) r =
    with_verdict cfg env answers target.version
      (verify env.tools (installed_version cfg env r.disk.current) target)
      (play_all answers (downloads ∷ reports verifying target.version ∷ []) r)

unfoldable pub offered : Settings → Surroundings → Answers → Target → Disk → Returned × Run
offered cfg env answers target d =
    if str_eq target.version "" || str_eq target.version (installed_version cfg env d.current)
    then (idle, begin d)
    else with_download cfg env answers target (download cfg.max_bundle target env.answer)
        (play_all answers (reports downloading target.version ∷ []) (begin d))

unfoldable pub polled : Settings → Surroundings → Answers → Poll → Disk → Returned × Run
polled cfg env answers unanswered d = (in_error, begin d)
polled cfg env answers unassigned d = (idle, begin d)
polled cfg env answers (assigned target) d = offered cfg env answers target d

unfoldable pub check_and_apply : Settings → Surroundings → Answers → Disk → Returned × Run
check_and_apply cfg env answers d = polled cfg env answers env.poll d
