-- ===== src/Hold/Standing.antt =====
-- The coil that the irrigation hold drives, through samples and settings.
use mathlib.Core.Path.{subst}
use wqm.Prelude.{
  ℕ, ◌≡◌, refl, sym, ap, ◌∙◌, Bool, true, false, not, ◌&&◌, ◌||◌, ==_iff, inl, inr, Option, arith,
  if◌then◌else◌, Bool-cases, List, ◌==◌, get_or,
}
use wqm.Prelude.Texts.{String}
use wqm.Relay.{check_channel}
use wqm.Hold.Config.{HoldConfig, armed, same_config}
use wqm.Hold.Scan.{Reason, Reading, scan, bool_ne}
use wqm.Hold.{Hold, drive, reset, judge, follow, retry, let_go, take_over, configure, evaluate}
use wqm.Hold.Drive.{armed-check}
use wqm.Hold.Invariant.{heard, evaluate-armed, evaluate-idle}
use wqm.Hold.Safety.{heard-cfg, follow-keeps}
use wqm.Hold.Owned.{Stands, Owned, drive_on-Owned, dropped-Owned, drive_off-Owned}

-- What `Owned` reads.
record Same (h h' : Hold) : Type 0 where
  relays : h'.relays ≡ h.relays
  cfg : h'.cfg ≡ h.cfg
  driven : h'.driven ≡ h.driven
  driven_channel : h'.driven_channel ≡ h.driven_channel

Same-Owned : (h h' : Hold) → Same h h' → Owned h → Owned h'
Same-Owned h h' s o = record {
  wired = o.wired;
  attached = s.relays ∙ o.attached;
  works = o.works;
  small = o.small;
  mine = λ e.
      let m = o.mine (sym s.driven ∙ e) in
      (
        ap armed s.cfg ∙ m.0,
        s.driven_channel ∙ (m.1 ∙ ap (λ (c : HoldConfig). c.relay) (sym s.cfg)),
      );
  stands = λ e. subst (λ c. Stands c o.wired) (sym s.driven_channel) (o.stands (sym s.driven ∙ e));
}

judge-Same :
    (now stamp : ℕ) (found : List Reason × Bool) (h : Hold) → Same h (judge now stamp found h)
unfolding judge
judge-Same now stamp (tripping, unknown) h = record {
  relays = ground arith;
  cfg = ground arith;
  driven = ground arith;
  driven_channel = ground arith;
}

if-Owned :
    (b : Bool) (x y : Hold)
    → (b ≡ true → Owned x)
    → (b ≡ false → Owned y)
    → Owned (if b then x else y)
if-Owned true x y h k = h refl
if-Owned false x y h k = k refl

follow-Owned : (now : ℕ) (h : Hold) → armed h.cfg ≡ true → Owned h → Owned (follow now h)
unfolding follow
follow-Owned now h a o =
    if-Owned (bool_ne h.holding h.driven) _ h
      (λ _. elim (Bool-cases h.holding) [
        | inl up ↦ subst (λ b. Owned (drive now b h)) (sym up) (drive_on-Owned now h a o)
        | inr down ↦ subst (λ b. Owned (drive now b h)) (sym down) (drive_off-Owned now h o)
      ])
      (λ _. o)

retry-Owned : (now : ℕ) (h : Hold) → Owned h → Owned (retry now h)
unfolding retry
retry-Owned now h o =
    if-Owned (h.driven && (not (armed h.cfg) || not (h.driven_channel == h.cfg.relay))) _ h
      (λ _. drive_off-Owned now h o) (λ _. o)

heard-Owned :
    (suspended : Option (List String)) (now : ℕ) (h : Hold)
    → Owned h
    → Owned (heard suspended now h)
heard-Owned suspended now h o =
    let h' : Hold = record h { last_suspended = get_or suspended h.last_suspended } in
    retry-Owned now h' (
      Same-Owned h h' (record { relays = refl; cfg = refl; driven = refl; driven_channel = refl })
        o)

pub evaluate-Owned :
    (reading : Reading) (suspended : Option (List String)) (now stamp : ℕ) (h : Hold)
    → Owned h
    → Owned (evaluate reading suspended now stamp h)
evaluate-Owned reading suspended now stamp h o =
    let h' = heard suspended now h in
    let o' = heard-Owned suspended now h o in
    elim (Bool-cases (armed h'.cfg)) [
      | inr idle ↦ subst Owned (sym (evaluate-idle reading suspended now stamp h idle)) o'
      | inl a ↦
          let found = scan reading h'.last_suspended h'.cfg.thresholds in
          let same = judge-Same now stamp found h' in
          subst Owned (sym (evaluate-armed reading suspended now stamp h a)) (
            follow-Owned now (judge now stamp found h') (ap armed same.cfg ∙ a)
              (Same-Owned h' _ same o'))
    ]

reset-Owned : (h : Hold) → Owned h → Owned (reset h)
unfolding reset
reset-Owned h o =
    Same-Owned h _ (record { relays = refl; cfg = refl; driven = refl; driven_channel = refl }) o

dropped-check : (c d : ℕ) → check_channel d ≡ true → check_channel (if d == 0 then c else d) ≡ true
dropped-check c d valid = ground arith

must_go : (b x y : Bool) → (b && (not x || not y)) ≡ true → b ≡ true
must_go b x y h = ground arith

may_stay : (b x y : Bool) → (b && (not x || not y)) ≡ false → b ≡ true → (x ≡ true) × (y ≡ true)
may_stay b x y h e = (ground arith, ground arith)

-- With new settings the coil is dropped, unless it is the new settings' own.
let_go-Owned :
    (now : ℕ) (cfg : HoldConfig) (h : Hold)
    → Owned h
    → Owned (let_go now h.cfg cfg (record h { cfg = cfg; configured = true }))
unfolding let_go
let_go-Owned now cfg h o =
    let h' : Hold = record h { cfg = cfg; configured = true } in
    if-Owned (h.driven && (not (armed cfg) || not (cfg.relay == h.driven_channel))) _ _
      (λ goes.
        let m = o.mine (must_go h.driven (armed cfg) (cfg.relay == h.driven_channel) goes) in
        let real : check_channel h.driven_channel ≡ true =
          ap check_channel m.1 ∙ armed-check h.cfg m.0 in
        reset-Owned (drive now false h') (
          dropped-Owned now h' o.wired o.attached o.works o.small
            (dropped-check cfg.relay h.driven_channel real)))
      (λ stays.
        let kept : Owned h' = record {
          wired = o.wired;
          attached = o.attached;
          works = o.works;
          small = o.small;
          mine = λ e.
              let own = may_stay h.driven (armed cfg) (cfg.relay == h.driven_channel) stays e in
              (own.0, sym ((==_iff cfg.relay h.driven_channel).0 own.1));
          stands = o.stands;
        } in
        if-Owned (not (armed cfg) || not (cfg.relay == h.cfg.relay)) _ h' (λ _. reset-Owned h' kept)
          (λ _. kept))

take_over-Owned :
    (now : ℕ) (old cfg : HoldConfig) (h : Hold) → Owned h → Owned (take_over now old cfg h)
unfolding take_over
take_over-Owned now old cfg h o =
    if-Owned (armed cfg && (not (armed old) || not (cfg.relay == old.relay))) _ h
      (λ _. drive_off-Owned now h o) (λ _. o)

pub configure-Owned :
    (now : ℕ) (cfg : HoldConfig) (h : Hold) → Owned h → Owned (configure now cfg h)
unfolding configure
configure-Owned now cfg h o =
    if-Owned (h.configured && same_config cfg h.cfg) h _ (λ _. o)
      (λ _. take_over-Owned now h.cfg cfg _ (let_go-Owned now cfg h o))

-- A sample leaves the settings in force.
pub evaluate-cfg :
    (reading : Reading) (suspended : Option (List String)) (now stamp : ℕ) (h : Hold)
    → (evaluate reading suspended now stamp h).cfg ≡ h.cfg
evaluate-cfg reading suspended now stamp h =
    let h' = heard suspended now h in
    let found = scan reading h'.last_suspended h'.cfg.thresholds in
    elim (Bool-cases (armed h'.cfg)) [
      | inl a ↦
          ap (λ (x : Hold). x.cfg) (evaluate-armed reading suspended now stamp h a)
          ∙ ((follow-keeps now (judge now stamp found h')).4
              ∙ ((judge-Same now stamp found h').cfg ∙ heard-cfg suspended now h))
      | inr e ↦
          ap (λ (x : Hold). x.cfg) (evaluate-idle reading suspended now stamp h e)
          ∙ heard-cfg suspended now h
    ]
