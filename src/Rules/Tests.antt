-- ===== src/Rules/Tests.antt =====
-- The rules engine at concrete inputs: above a turbidity of 5 NTU, relay 2 is switched on for 60 s.
use wqm.Prelude.{
  ℕ, ◌≡◌, ◌⊎◌, inr, refl, Bool, true, false, none, some, List, [], ◌∷◌, arith, All, contains, ◌==◌,
  ◌&&◌, ◌<◌, not,
}
use mathlib.Core.List.{Memᴰ}
use wqm.Prelude.Dict.{get, remove}
use wqm.Prelude.Int.{ℤ, pos}
use wqm.Prelude.Texts.{String, has_name, find}
use wqm.Relay
use wqm.Relay.Others.{Untouched}
use wqm.Rules.Rule.{Rule, gt}
use wqm.Rules.{
  Moment, Engine, init, set_suspended_sensors, expire_timers, forget_reserved, sweep, note_off,
  drop_timer, columns_of,
}
use wqm.Rules.Evaluate.{evaluate}
use wqm.Rules.Grants.{Granted, evaluate_grants, guards_hold}
use wqm.Rules.Reserved.{evaluate_spares}
use wqm.Rules.Coils.{suspension_releases}
use wqm.Rules.Wired.{Steady}

abbrev works : ℕ → Bool
works _ = true

abbrev relays : Relay.Relays
relays = Relay.init works 60000

abbrev flush : Rule
flush = record {
  sensor = "turbidity_ntu";
  operator = gt;
  relay = 2;
  action_on = true;
  threshold = some (pos 50000);
  adaptive_k = none;
  duration_s = 60;
}

abbrev engine : Engine
engine = record (init (some relays)) { rules = flush ∷ [] }

abbrev muddy : List (String × ℤ)
muddy = ("turbidity_ntu", pos 80000) ∷ []

abbrev noon : Moment
noon = record { mono = 500000; time_of_day = 43200000; hour = 12; utc_hour = 16 }

evaluate_grants_example :
    All (Granted (3 ∷ []) muddy noon engine) (evaluate (3 ∷ []) muddy noon engine).0
evaluate_grants_example = evaluate_grants (3 ∷ []) muddy noon engine

-- With relay 2 under manual override.
abbrev overridden : Engine
overridden = record engine { manual_override = true; timers = (2, 400000) ∷ [] }

small : relays.state < 16
unfolding Relay.init
small = omega arith

own : contains 2 (2 ∷ []) ≡ true
unfolding contains
own = refl

evaluate_spares_example :
    (r' : Relay.Relays) × ((evaluate (2 ∷ []) muddy noon engine).1.relay ≡ some r')
    × Untouched 2 relays r'
evaluate_spares_example = evaluate_spares (2 ∷ []) muddy noon engine relays 2 own refl refl small

refused : (100 == 100 && Relay.check_channel 2 && not (contains 2 (2 ∷ []))) ≡ false
unfolding contains
refused = refl

abbrev timed : Engine
timed = record engine { timers = (1, 400000) ∷ (2, 600000) ∷ [] }

left : get 2 (expire_timers [] 500000 timed).1.timers ≡ some 600000
unfolding get expire_timers forget_reserved contains sweep note_off drop_timer remove
left = refl

named : has_name "turbidity_ntu" (columns_of ("turbidity" ∷ [])) ≡ true
unfolding has_name columns_of find
named = refl

unsuspended : has_name "turbidity_ntu" [] ≡ false
unfolding has_name
unsuspended = refl

free : contains 2 [] ≡ false
unfolding contains
free = refl

relays-Steady : Steady relays
unfolding Relay.init
relays-Steady = record { works = λ k. refl; small = omega arith }

suspension_releases_example :
    let out = evaluate [] muddy noon (set_suspended_sensors ("turbidity" ∷ []) overridden) in
    Memᴰ (2, false) out.0
    × ((r' : Relay.Relays) × (out.1.relay ≡ some r')
        × ((Relay.is_on 2 r' ≡ false) ⊎ Memᴰ (2, true) out.0))
suspension_releases_example =
    suspension_releases [] muddy noon overridden ("turbidity" ∷ []) flush relays (Memᴰ.head refl)
      named unsuspended free refl refl relays-Steady

guards_hold_example : All (λ a. a.1 ≡ false) (evaluate [] muddy noon overridden).0
guards_hold_example = guards_hold [] muddy noon overridden (inr refl)
