-- ===== src/Hold/Safety.antt =====
-- Where the coil of the irrigation hold stands after a call.
use wqm.Prelude.{
  ℕ, ◌≡◌, Bool, true, false, not, ◌&&◌, ◌||◌, Option, some, arith, ◌==◌, Bool-cases, inl, inr, List,
  [], get_or, ap, ◌∙◌,
}
use wqm.Prelude.Texts.{String}
use wqm.Hold.Config.{HoldConfig, armed, same_config}
use wqm.Hold.Scan.{Reason, Reading, scan}
use wqm.Hold.{
  Hold, released, configure, evaluate, judge, follow, retry, let_go, take_over, reserved_channels,
  is_release,
}
use wqm.Hold.Drive.{armed-check, drive-keeps, drive-settles, drive-HasRelays, HasRelays}
use wqm.Hold.Invariant.{Inv, heard, evaluate-armed, heard-Inv, judge-Inv}

heard-HasRelays :
    (suspended : Option (List String)) (now : ℕ) (h : Hold)
    → HasRelays h
    → HasRelays (heard suspended now h)
unfolding retry
heard-HasRelays suspended now h w =
    let h' : Hold = record h { last_suspended = get_or suspended h.last_suspended } in
    elim (Bool-cases (h.driven && (not (armed h.cfg) || not (h.driven_channel == h.cfg.relay)))) [
      | inl again ↦ rw again (drive-HasRelays now false h' w)
      | inr fine ↦ rw fine w
    ]

judge-relays :
    (now stamp : ℕ) (found : List Reason × Bool) (h : Hold)
    → ((judge now stamp found h).relays ≡ h.relays) × ((judge now stamp found h).cfg ≡ h.cfg)
unfolding judge
judge-relays now stamp (tripping, unknown) h = ground arith

-- With an engine that is armed, the coil ends where the logical state wants it.
follow-settles :
    (now : ℕ) (h : Hold)
    → armed h.cfg ≡ true
    → Inv h
    → HasRelays h
    → (follow now h).driven ≡ (follow now h).holding
unfolding follow
follow-settles now h a v w =
    ground
      (arith, armed-check h.cfg a, drive-keeps now h.holding h, drive-settles now h.holding h w)

pub heard-cfg :
    (suspended : Option (List String)) (now : ℕ) (h : Hold) → (heard suspended now h).cfg ≡ h.cfg
unfolding retry
heard-cfg suspended now h =
    ground (
      arith,
      drive-keeps now false (record h { last_suspended = get_or suspended h.last_suspended }),
    )

-- An armed engine's sample is the judgement of what it heard, followed by the coil.
pub evaluate_lem :
    (reading : Reading) (suspended : Option (List String)) (now stamp : ℕ) (h : Hold)
    → armed h.cfg ≡ true
    → let h' = heard suspended now h in
      evaluate reading suspended now stamp h
      ≡ follow now (judge now stamp (scan reading h'.last_suspended h.cfg.thresholds) h')
evaluate_lem reading suspended now stamp h a =
    evaluate-armed reading suspended now stamp h (rw (heard-cfg suspended now h) a)
    ∙ ap
        (λ (c : HoldConfig). follow now (
          judge now stamp (scan reading (heard suspended now h).last_suspended c.thresholds)
            (heard suspended now h)))
        (heard-cfg suspended now h)

pub follow-keeps :
    (now : ℕ) (h : Hold)
    → ((follow now h).holding ≡ h.holding)
      × ((follow now h).fault ≡ h.fault)
      × ((follow now h).trip_count ≡ h.trip_count)
      × ((follow now h).clear_since ≡ h.clear_since)
      × ((follow now h).cfg ≡ h.cfg)
unfolding follow
follow-keeps now h = ground (arith, drive-keeps now h.holding h)

pub heard-keeps :
    (suspended : Option (List String)) (now : ℕ) (h : Hold)
    → let h' = heard suspended now h in
      (h'.last_suspended ≡ get_or suspended h.last_suspended)
      × (h'.holding ≡ h.holding)
      × (h'.trip_count ≡ h.trip_count)
      × (h'.clear_since ≡ h.clear_since)
unfolding retry
heard-keeps suspended now h =
    ground (
      arith,
      drive-keeps now false (record h { last_suspended = get_or suspended h.last_suspended }),
    )

judge-unknown :
    (now stamp : ℕ) (found : List Reason × Bool) (h : Hold)
    → is_release h.cfg.on_fault ≡ true
    → found.1 ≡ true
    → ((judge now stamp found h).holding ≡ false)
      × ((judge now stamp found h).fault ≡ some released)
unfolding judge
judge-unknown now stamp (tripping, unknown) h rel bad = ground arith

module _ (reading : Reading) (suspended : Option (List String)) (now stamp : ℕ) (h : Hold)
    (v : Inv h) (w : HasRelays h) (a : armed h.cfg ≡ true) where
  abbrev h' : Hold
  h' = heard suspended now h

  abbrev found : List Reason × Bool
  found = scan reading h'.last_suspended h.cfg.thresholds

  heard-armed : armed h'.cfg ≡ true
  heard-armed = rw (heard-cfg suspended now h) a

  judged : Hold
  judged = judge now stamp found h'

  judged-settles : (follow now judged).driven ≡ (follow now judged).holding
  unfolding judged
  judged-settles =
      follow-settles now (judge now stamp found h')
        (rw (judge-relays now stamp found h').1 heard-armed)
        (judge-Inv now stamp found h' heard-armed (heard-Inv suspended now h v))
        (rw (judge-relays now stamp found h').0 (heard-HasRelays suspended now h w))

  -- On relays whose every write succeeds, an armed engine in a valid state ends each sample with
  -- the coil energised exactly if it holds.
  pub evaluate_settles :
      (evaluate reading suspended now stamp h).driven
      ≡ (evaluate reading suspended now stamp h).holding
  unfolding judged
  evaluate_settles = rw (evaluate_lem reading suspended now stamp h a) judged-settles

  -- On relays whose every write succeeds, an armed engine in a valid state that is set to release on
  -- a fault lets go in the sample in which a probe of one of its conditions cannot be read, whatever
  -- the other conditions say, and reports it.
  pub fault_releases :
      is_release h.cfg.on_fault ≡ true
      → (scan reading (get_or suspended h.last_suspended) h.cfg.thresholds).1 ≡ true
      → let after = evaluate reading suspended now stamp h in
        (after.holding ≡ false) × (after.driven ≡ false) × (after.fault ≡ some released)
  fault_releases rel bad =
      let settled = evaluate_settles in
      let bad' : found.1 ≡ true = rw (heard-keeps suspended now h).0 bad in
      let (free, told) =
        judge-unknown now stamp found h' (rw (heard-cfg suspended now h) rel) bad' in
      let kept = follow-keeps now (judge now stamp found h') in
      let loose : (evaluate reading suspended now stamp h).holding ≡ false =
        rw (evaluate_lem reading suspended now stamp h a) (kept.0 ∙ free) in
      (loose, settled ∙ loose, rw (evaluate_lem reading suspended now stamp h a) (kept.1 ∙ told))

-- On relays whose every write succeeds, for an engine in a valid state, new settings that differ from
-- those in force and do not arm the engine leave it holding nothing, driving no coil and reserving no
-- channel.
pub disarm_lets_go :
    (now : ℕ) (cfg : HoldConfig) (h : Hold)
    → Inv h
    → HasRelays h
    → (h.configured && same_config cfg h.cfg) ≡ false
    → armed cfg ≡ false
    → let after = configure now cfg h in
      (after.holding ≡ false) × (after.driven ≡ false) × (reserved_channels after ≡ [])
unfolding configure let_go take_over reserved_channels
disarm_lets_go now cfg h v w differs off =
    let h1 : Hold = record h { cfg = cfg; configured = true } in
    ground (arith, drive-keeps now false h1, drive-settles now false h1 w)
