-- ===== src/Node/Fine.antt =====
-- What holds of the channel of the irrigation hold, and that the sampling cycle keeps it.
use mathlib.Core.Path.{subst}
use wqm.Prelude.{ℕ, ◌≡◌, refl, sym, ap, ◌∙◌, true, Option, none, some, List, get_or, contains}
use wqm.Prelude.Texts.{String}
use wqm.Relay.{Relays, check_channel}
use wqm.Relay.Others.{Untouched}
use wqm.Rules.{Moment, Engine, set_suspended_sensors}
use wqm.Rules.Evaluate.{evaluate}
use wqm.Rules.Reserved.{evaluate_spares}
use wqm.Rules.Wired.{Steady, evaluate-Steady}
use wqm.Hold.Config.{armed}
use wqm.Hold.Scan.{Reading}
use wqm.Hold.{Hold}
use wqm.Hold.Drive.{armed-check}
use wqm.Hold.Owned.{Owned, Stands}
use wqm.Node.{Node, rules_of, hold_of, after_hold, note_suspended}

-- The controller works; the coil that the hold drives is the channel of its settings in force, which
-- arm it; and that coil is on, with no timer that would drop it.
pub record Fine (n : Node) : Type 0 where
  pub steady : Steady n.relays
  pub mine :
      n.hold.driven ≡ true → (armed n.hold.cfg ≡ true) × (n.hold.driven_channel ≡ n.hold.cfg.relay)
  pub stands : n.hold.driven ≡ true → Stands n.hold.driven_channel n.relays

pub to-Owned : (n : Node) → Fine n → Owned (hold_of n)
to-Owned n f = record {
  wired = n.relays;
  attached = refl;
  works = f.steady.works;
  small = f.steady.small;
  mine = f.mine;
  stands = f.stands;
}

pub Owned-Fine : (h : Hold) (n : Node) → Owned h → Fine (after_hold h n)
Owned-Fine h n o =
    let same : o.wired ≡ get_or h.relays n.relays = sym (ap (λ r. get_or r n.relays) o.attached) in
    record {
      steady = subst Steady same (record { works = o.works; small = o.small });
      mine = o.mine;
      stands = λ e. subst (Stands h.driven_channel) same (o.stands e);
    }

-- What others may do to the controller.
pub record Allowed (n : Node) (r : Relays) : Type 0 where
  pub steady : Steady r
  pub untouched : n.hold.driven ≡ true → Untouched n.hold.driven_channel n.relays r

pub carry :
    (n : Node) (r : Relays) (e : Engine)
    → Fine n
    → Allowed n r
    → Fine (record n { relays = r; rules = e })
carry n r e f a = record {
  steady = a.steady;
  mine = f.mine;
  stands = λ d.
      let u = a.untouched d in
      let s = f.stands d in record { lit = u.coil ∙ s.lit; untimed = u.timer ∙ s.untimed };
}

pub Allowed-same : (n : Node) → Fine n → Allowed n n.relays
Allowed-same n f = record {
  steady = f.steady;
  untouched = λ d. record { small = f.steady.small; coil = refl; timer = refl; line = refl };
}

pub real_channel :
    (n : Node) → Fine n → n.hold.driven ≡ true → check_channel n.hold.driven_channel ≡ true
real_channel n f d = let m = f.mine d in ap check_channel m.1 ∙ armed-check n.hold.cfg m.0

noted-relay :
    (suspended : Option (List String)) (n : Node)
    → (note_suspended suspended (rules_of n)).relay ≡ some n.relays
unfolding set_suspended_sensors
noted-relay none n = refl
noted-relay (some sensors) n = refl

same_relays : (r r' : Relays) → some r ≡ some r' → r ≡ r'
same_relays r r' h = ap (λ o. get_or o r) h

-- The end of a pass over the rules that has read what is reserved.
pub rules-Allowed :
    (reserved : List ℕ) (reading : Reading) (suspended : Option (List String)) (t : Moment)
    → (n : Node) → Fine n
    → (n.hold.driven ≡ true → contains n.hold.driven_channel reserved ≡ true)
    → Allowed n (
        get_or
          (evaluate reserved reading t (note_suspended suspended (rules_of n))).1.relay
          n.relays)
rules-Allowed reserved reading suspended t n f own =
    let e = note_suspended suspended (rules_of n) in
    let held = noted-relay suspended n in
    let (r, found, steady) = evaluate-Steady reserved reading t e n.relays held f.steady in
    let same : r ≡ get_or (evaluate reserved reading t e).1.relay n.relays =
      sym (ap (λ o. get_or o n.relays) found) in
    record {
      steady = subst Steady same steady;
      untouched = λ d.
          let (r2, found2, u) =
            evaluate_spares reserved reading t e n.relays n.hold.driven_channel (own d)
              (real_channel n f d) held f.steady.small in
          subst (Untouched n.hold.driven_channel n.relays)
            (sym (ap (λ o. get_or o n.relays) found2)) u;
    }
