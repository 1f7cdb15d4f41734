-- ===== src/Ota/Safety.antt =====
-- A cycle of src/ota/agent.py that fails or is cut short anywhere.
use mathlib.Core.Path.{subst}
use wqm.Prelude.{
  ℕ, ◌≡◌, ◌⊎◌, inl, inr, refl, sym, ◌∙◌, Bool, true, false, Option, none, some, List, [], ◌∷◌, ◌||◌,
  String, Bool-cases,
}
use wqm.Prelude.Texts.{str_eq}
use wqm.Ota.{
  applying, self_test, failed, success, downloading, verifying, verify_failed, Disk, Effect,
  reports, downloads, unlinks_bundle, writes, carry, Answers, Ending, going, raised, died, Run,
  play_all, begin,
}
use wqm.Ota.Apply.{apply, record_of, is_incomplete, prune_releases}
use wqm.Ota.Verify.{Target, Verdict, verified, refused}
use wqm.Ota.Download.{download}
use wqm.Ota.Cycle.{
  Settings, Surroundings, Poll, unanswered, unassigned, assigned, installed_version, self_tested,
  fail_or_roll_back, after_test, after_apply, install, with_verdict, with_download, offered, polled,
  check_and_apply,
}
use wqm.Ota.Recovery.{
  home_of, home, Same-refl, home-Same, play_all-keeps, play_all-Same, home-Midway, carry-Same,
}
use wqm.Ota.Switch.{Switched, Switched-Same, Applied, apply-Applied, tested-Switched}
use wqm.Ota.Rollback.{Writable, Harmless, IsAt, harmless-IsAt, prune_old-Harmless, rollback-home}

-- The unit comes back to the release before, or the new one has passed its test and is kept.
unfoldable pub Comes : String → String → Option Bool → Run → Type 0
Comes previous version tested r =
    (home r.disk ≡ some previous) ⊎ ((tested ≡ some true) × (home r.disk ≡ some version))

module _ (answers : Answers) (previous version : String)
    (apart : str_eq previous version ≡ false) where
  Harmless-Comes :
      (es : List Effect) (tested : Option Bool) (r : Run)
      → Harmless es
      → Comes previous version tested r
      → Comes previous version tested (play_all answers es r)
  unfolding Comes
  Harmless-Comes es tested r h (inl e) =
      inl (home-Same r.disk (play_all answers es r).disk (play_all-Same answers es r h) ∙ e)
  Harmless-Comes es tested r h (inr (p, e)) =
      inr (p, home-Same r.disk (play_all answers es r).disk (play_all-Same answers es r h) ∙ e)

  Kept : Disk → Type 0
  Kept d = Switched previous version d ⊎ IsAt version d

  succeeded-Kept : (d : Disk) → Kept d → Kept (carry (writes (record_of success version none)) d)
  unfolding carry Kept is_incomplete home_of record_of
  succeeded-Kept d (inl w) = inr (record { current = w.linked; stays = w.linked })
  succeeded-Kept d (inr a) = inr (record { current = a.current; stays = a.current })

  reports-Kept : (d : Disk) → Kept d → Kept (carry (reports success version) d)
  unfolding Kept
  reports-Kept d (inl w) = inl (
      Switched-Same previous version d _
        (carry-Same (reports success version) d d refl (Same-refl d)) w)
  reports-Kept d (inr a) = inr (harmless-IsAt (reports success version) version d refl a)

  Kept-Comes : (r : Run) → Kept r.disk → Comes previous version (some true) r
  unfolding Comes Kept
  Kept-Comes r (inl w) = inl (home-Midway previous version r.disk apart w.midway)
  Kept-Comes r (inr a) = inr (refl, a.stays)

  succeeded-Comes :
      (r : Run)
      → Switched previous version r.disk
      → Comes previous version (some true) (
          play_all answers
            (reports success version ∷ writes (record_of success version none) ∷ [])
            r)
  unfolding Kept
  succeeded-Comes r w = Kept-Comes _ (
      play_all-keeps Kept answers
        (reports success version ∷ writes (record_of success version none) ∷ []) r
        (reports-Kept, (succeeded-Kept, tt)) (inl w))

  after_test-Comes :
      (cfg : Settings) (tested : Option Bool) (r : Run)
      → Switched previous version r.disk
      → Comes previous version tested (after_test cfg answers version (some previous) tested r).1
  unfolding after_test fail_or_roll_back Comes prune_releases
  after_test-Comes cfg none r w = inl (home-Midway previous version r.disk apart w.midway)
  after_test-Comes cfg (some true) r w =
      Harmless-Comes _ (some true) _ (prune_old-Harmless _ _ _) (succeeded-Comes r w)
  after_test-Comes cfg (some false) r w =
      inl (rollback-home answers previous version r apart w.midway)

  unlinked-Switched :
      (d : Disk) → Switched previous version d → Switched previous version (carry unlinks_bundle d)
  unlinked-Switched d w =
      Switched-Same previous version d _ (carry-Same unlinks_bundle d d refl (Same-refl d)) w

  told-Switched :
      (d : Disk)
      → Switched previous version d
      → Switched previous version (carry (reports self_test version) d)
  told-Switched d w =
      Switched-Same previous version d _
        (carry-Same (reports self_test version) d d refl (Same-refl d)) w

  module _ (cfg : Settings) (env : Surroundings) where
    after_apply-Comes :
        (g : Ending) (r : Run)
        → g ≡ r.ending
        → Applied previous version r
        → Comes previous version
            (self_tested cfg env)
            (after_apply g cfg env answers version (some previous) r).1
    unfolding after_apply Comes
    after_apply-Comes going r e a = after_test-Comes cfg (self_tested cfg env) _ (
        play_all-keeps (Switched previous version) answers
          (unlinks_bundle
            ∷ writes (record_of self_test version (some previous))
            ∷ reports self_test version
            ∷ [])
          r
          (unlinked-Switched, (tested-Switched answers previous version apart, (told-Switched, tt)))
          (a.switched (sym e)))
    after_apply-Comes raised r e a =
        Harmless-Comes (reports failed version ∷ unlinks_bundle ∷ unlinks_bundle ∷ [])
          (self_tested cfg env) (record r { ending = going }) (refl, (refl, (refl, tt)))
          (inl a.stays)
    after_apply-Comes died r e a = inl a.stays

    -- The unit is at the release that it started from, with no update under way.
    install-Comes :
        (r : Run)
        → Writable answers
        → IsAt previous r.disk
        → Comes previous version (self_tested cfg env) (install cfg env answers version r).1
    unfolding install
    install-Comes r writable at =
        let told = play_all answers (reports applying version ∷ []) r in
        let same = play_all-Same answers (reports applying version ∷ []) r (refl, tt) in
        let here = same.current ∙ at.current in
        let tried = apply answers version env.mtime told in
        subst
          (λ c.
            Comes previous version (self_tested cfg env)
              (after_apply tried.ending cfg env answers version c tried).1)
          (sym here)
          (after_apply-Comes tried.ending tried refl (
            apply-Applied answers previous version apart env.mtime told writable here
              (home-Same r.disk told.disk same ∙ at.stays)))

    with_verdict-Comes :
        (v : Verdict) (r : Run)
        → Writable answers
        → IsAt previous r.disk
        → Comes previous version (self_tested cfg env) (with_verdict cfg env answers version v r).1
    unfolding with_verdict Comes
    with_verdict-Comes refused r writable at =
        Harmless-Comes (reports verify_failed version ∷ unlinks_bundle ∷ []) (self_tested cfg env) r
          (refl, (refl, tt)) (inl at.stays)
    with_verdict-Comes (verified m) r writable at = elim (Bool-cases m.requires_deps) [
      | inl e ↦ rw e (
          Harmless-Comes (reports failed version ∷ unlinks_bundle ∷ []) (self_tested cfg env) r
            (refl, (refl, tt)) (inl at.stays))
      | inr e ↦ rw e (install-Comes r writable at)
    ]

Harmless-IsAt :
    (answers : Answers) (name : String) (es : List Effect) (r : Run)
    → Harmless es
    → IsAt name r.disk
    → IsAt name (play_all answers es r).disk
Harmless-IsAt answers name es r h at =
    let same = play_all-Same answers es r h in
    record {
      current = same.current ∙ at.current;
      stays = home-Same r.disk (play_all answers es r).disk same ∙ at.stays;
    }

-- The version that a poll offers.
abbrev pub Offers : Poll → String → Type 0
Offers unanswered previous = Unit
Offers unassigned previous = Unit
Offers (assigned target) previous = str_eq previous target.version ≡ false

abbrev pub offered_version : Poll → String
offered_version unanswered = ""
offered_version unassigned = ""
offered_version (assigned target) = target.version

module _ (cfg : Settings) (env : Surroundings) (answers : Answers) (previous : String) where
  with_download-Comes :
      (target : Target) (size : Option ℕ) (r : Run)
      → str_eq previous target.version ≡ false
      → Writable answers
      → IsAt previous r.disk
      → Comes previous target.version
          (self_tested cfg env)
          (with_download cfg env answers target size r).1
  unfolding with_download Comes
  with_download-Comes target none r apart writable at =
      Harmless-Comes answers previous target.version apart (reports failed target.version ∷ [])
        (self_tested cfg env) r (refl, tt) (inl at.stays)
  with_download-Comes target (some written) r apart writable at =
      with_verdict-Comes answers previous target.version apart cfg env _ _ writable (
        Harmless-IsAt answers previous (downloads ∷ reports verifying target.version ∷ []) r
          (refl, (refl, tt)) at)

  offered-Comes :
      (target : Target) (d : Disk)
      → str_eq previous target.version ≡ false
      → Writable answers
      → IsAt previous d
      → Comes previous target.version (self_tested cfg env) (offered cfg env answers target d).1
  unfolding offered Comes
  offered-Comes target d apart writable at =
      elim (Bool-cases
        (str_eq target.version "" || str_eq target.version (installed_version cfg env d.current))) [
          | inl e ↦ rw e (inl at.stays)
          | inr e ↦ rw e (
              with_download-Comes target (download cfg.max_bundle target env.answer) _ apart
                writable
                (Harmless-IsAt answers previous (reports downloading target.version ∷ []) (begin d)
                  (refl, tt) at))
        ]

  polled-Comes :
      (poll : Poll) (d : Disk)
      → Offers poll previous
      → Writable answers
      → IsAt previous d
      → Comes previous
          (offered_version poll)
          (self_tested cfg env)
          (polled cfg env answers poll d).1
  unfolding polled Comes
  polled-Comes unanswered d apart writable at = inl at.stays
  polled-Comes unassigned d apart writable at = inl at.stays
  polled-Comes (assigned target) d apart writable at = offered-Comes target d apart writable at

  pub check_and_apply-Comes :
      (d : Disk)
      → Offers env.poll previous
      → Writable answers
      → d.current ≡ some previous
      → home d ≡ some previous
      → Comes previous
          (offered_version env.poll)
          (self_tested cfg env)
          (check_and_apply cfg env answers d).1
  unfolding check_and_apply
  check_and_apply-Comes d apart writable here stays =
      polled-Comes env.poll d apart writable (record { current = here; stays = stays })
