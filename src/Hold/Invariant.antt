-- ===== src/Hold/Invariant.antt =====
-- What holds of the irrigation hold between two calls.
use wqm.Prelude.{
  ℕ, ◌≡◌, ◌≢◌, refl, Bool, true, false, inl, inr, Option, none, arith, Bool-cases, List, [], ◌∷◌,
  get_or,
}
use wqm.Relay.{Relays, check_channel}
use wqm.Prelude.Texts.{String}
use wqm.Hold.Config.{HoldConfig, armed}
use wqm.Hold.Scan.{Reason, Reading, scan}
use wqm.Hold.{
  Hold, drive, reset, init, configure, evaluate, judge, follow, retry, let_go, take_over,
}
use wqm.Hold.Drive.{drive-keeps, drive-cases}

pub record Inv (h : Hold) : Type 0 where
  pub holding_armed : h.holding ≡ true → armed h.cfg ≡ true
  pub driven_real : h.driven ≡ true → check_channel h.driven_channel ≡ true
  pub idle_none : h.driven ≡ false → h.driven_channel ≡ 0
  pub holding_since : h.holding ≡ true → h.since ≢ none
  pub clear_holding : h.holding ≡ false → h.clear_since ≡ none

drive-Inv : (now : ℕ) (on : Bool) (h : Hold) → Inv h → Inv (drive now on h)
drive-Inv now on h v = ground (arith, drive-keeps now on h, drive-cases now on h)

pub judge-Inv :
    (now stamp : ℕ) (found : List Reason × Bool) (h : Hold)
    → armed h.cfg ≡ true
    → Inv h
    → Inv (judge now stamp found h)
unfolding judge
judge-Inv now stamp (tripping, unknown) h a v = ground arith

retry-Inv : (now : ℕ) (h : Hold) → Inv h → Inv (retry now h)
unfolding retry
retry-Inv now h v = ground (arith, drive-Inv now false h)

follow-Inv : (now : ℕ) (h : Hold) → Inv h → Inv (follow now h)
unfolding follow
follow-Inv now h v = ground (arith, drive-Inv now h.holding h)

-- The state on which `evaluate` judges the reading.
abbrev pub heard : Option (List String) → ℕ → Hold → Hold
heard suspended now h = retry now (record h { last_suspended = get_or suspended h.last_suspended })

pub heard-Inv :
    (suspended : Option (List String)) (now : ℕ) (h : Hold) → Inv h → Inv (heard suspended now h)
heard-Inv suspended now h v =
    retry-Inv now (record h { last_suspended = get_or suspended h.last_suspended })
      (record {
        holding_armed = v.holding_armed;
        driven_real = v.driven_real;
        idle_none = v.idle_none;
        holding_since = v.holding_since;
        clear_holding = v.clear_holding;
      })

pub evaluate-armed :
    (reading : Reading) (suspended : Option (List String)) (now stamp : ℕ) (h : Hold)
    → armed (heard suspended now h).cfg ≡ true
    → evaluate reading suspended now stamp h
      ≡ follow now (
          judge now stamp
            (scan reading
              (heard suspended now h).last_suspended
              (heard suspended now h).cfg.thresholds)
            (heard suspended now h))
unfolding evaluate
evaluate-armed reading suspended now stamp h a = rw a

pub evaluate-idle :
    (reading : Reading) (suspended : Option (List String)) (now stamp : ℕ) (h : Hold)
    → armed (heard suspended now h).cfg ≡ false
    → evaluate reading suspended now stamp h ≡ heard suspended now h
unfolding evaluate
evaluate-idle reading suspended now stamp h a = rw a

evaluate-Inv :
    (reading : Reading) (suspended : Option (List String)) (now stamp : ℕ) (h : Hold)
    → Inv h
    → Inv (evaluate reading suspended now stamp h)
evaluate-Inv reading suspended now stamp h v =
    elim (Bool-cases (armed (heard suspended now h).cfg)) [
      | inl a ↦ rw (evaluate-armed reading suspended now stamp h a) (
          follow-Inv now _
            (judge-Inv now stamp _ (heard suspended now h) a (heard-Inv suspended now h v)))
      | inr idle ↦
          rw (evaluate-idle reading suspended now stamp h idle) (heard-Inv suspended now h v)
    ]

-- Letting go leaves nothing held that the new settings do not arm.
let_go-Inv :
    (now : ℕ) (cfg : HoldConfig) (h : Hold)
    → Inv h
    → Inv (let_go now h.cfg cfg (record h { cfg = cfg; configured = true }))
unfolding let_go reset
let_go-Inv now cfg h v =
    let h' : Hold = record h { cfg = cfg; configured = true } in
    ground (arith, drive-keeps now false h', drive-cases now false h')

take_over-Inv : (now : ℕ) (old cfg : HoldConfig) (h : Hold) → Inv h → Inv (take_over now old cfg h)
unfolding take_over
take_over-Inv now old cfg h v = ground (arith, drive-Inv now false h)

configure-Inv : (now : ℕ) (cfg : HoldConfig) (h : Hold) → Inv h → Inv (configure now cfg h)
unfolding configure
configure-Inv now cfg h v = ground (
  arith,
  take_over-Inv now h.cfg cfg (let_go now h.cfg cfg (record h { cfg = cfg; configured = true }))
      (let_go-Inv now cfg h v),
)

-- A call of the engine, at a time, as the sampling worker and a settings reload make them.
pub data Call : Type 0 where
  sample : Reading → Option (List String) → ℕ → ℕ → Call
  settings : ℕ → HoldConfig → Call

unfoldable pub apply : Hold → Call → Hold
apply h (sample reading suspended now stamp) = evaluate reading suspended now stamp h
apply h (settings now cfg) = configure now cfg h

unfoldable pub run : Hold → List Call → Hold
unfolding apply
run h [] = h
run h (c ∷ cs) = run (apply h c) cs

apply-Inv : (h : Hold) (c : Call) → Inv h → Inv (apply h c)
unfolding apply
apply-Inv h (sample reading suspended now stamp) v = evaluate-Inv reading suspended now stamp h v
apply-Inv h (settings now cfg) v = configure-Inv now cfg h v

run_from-Inv : (h : Hold) (cs : List Call) → Inv h → Inv (run h cs)
unfolding run
run_from-Inv h [] v = v
run_from-Inv h (c ∷ cs) v = run_from-Inv (apply h c) cs (apply-Inv h c v)

-- After any samples and settings, with any relay controller, failing or not: the engine holds only
-- while it is armed and with a time stamp, the coil it drives is one of the four, it remembers a
-- channel only while it drives one, and the clear period is counted only while it holds.
pub run-Inv : (relays : Option Relays) (cs : List Call) → Inv (run (init relays) cs)
run-Inv relays cs = run_from-Inv (init relays) cs (record {
  holding_armed = λ e. cc;
  driven_real = λ e. cc;
  idle_none = λ _. refl;
  holding_since = λ e. cc;
  clear_holding = λ _. refl;
})
