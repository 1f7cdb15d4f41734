-- ===== src/Node/Steps.antt =====
-- What single steps of the threads of a unit keep, with what is under way between two of them.
use mathlib.Core.Path.{subst}
use wqm.Prelude.{
  ℕ, zero, suc, get_or, ◌≡◌, refl, sym, ap, ◌∙◌, Bool, true, false, not, ◌&&◌, ◌||◌, Option, none,
  some, List, [], ◌∷◌, arith, leb, ◌==◌, if◌then◌else◌, contains, Bool-cases, inl, inr, All,
  All-append,
}
use wqm.Relay.{check_channel}
use wqm.Rules.Evaluate.{evaluate}
use wqm.Hold.Config.{HoldConfig, armed}
use wqm.Hold.{Hold, owns, reserved_channels}
use wqm.Hold.Standing.{evaluate-Owned, evaluate-cfg}
use wqm.Node.{
  Source, command, radio, Ask, Node, rules_of, hold_of, note_suspended, starts_pass, end_with,
  sample_hold, ask, check_command, check_downlink, act, ask_at, without, act_with, thread,
}
use wqm.Node.Fine.{Fine, to-Owned, Owned-Fine, carry, rules-Allowed}
use wqm.Node.Ownership.{act-Fine, thread-Fine}

-- The request is for another channel than that of the hold.
abbrev pub Foreign : HoldConfig → Ask → Type 0
Foreign cfg a = (armed cfg && a.channel == cfg.relay) ≡ false

-- What a pass has read spares the channel of the hold.
abbrev pub Spares : HoldConfig → Option (List ℕ) → Type 0
Spares cfg none = Unit
Spares cfg (some reserved) = armed cfg ≡ true → contains cfg.relay reserved ≡ true

pub record Safe (n : Node) : Type 0 where
  pub fine : Fine n
  pub foreign : All (Foreign n.hold.cfg) n.under_way
  pub spares : Spares n.hold.cfg n.pass

-- What a step changes of the hold's settings does not concern what is under way.
abbrev pub SameRelay : HoldConfig → HoldConfig → Type 0
SameRelay cfg cfg' = (armed cfg' ≡ armed cfg) × (cfg'.relay ≡ cfg.relay)

Foreign-same :
    (cfg cfg' : HoldConfig) (a : Ask) → SameRelay cfg cfg' → Foreign cfg a → Foreign cfg' a
Foreign-same cfg cfg' a s h = rw (s.0, s.1) h

pub All-same :
    (cfg cfg' : HoldConfig) (asks : List Ask)
    → SameRelay cfg cfg'
    → All (Foreign cfg) asks
    → All (Foreign cfg') asks
All-same cfg cfg' [] s h = tt
All-same cfg cfg' (a ∷ asks) s h = (Foreign-same cfg cfg' a s h.0, All-same cfg cfg' asks s h.1)

pub Spares-same :
    (cfg cfg' : HoldConfig) (pass : Option (List ℕ))
    → SameRelay cfg cfg'
    → Spares cfg pass
    → Spares cfg' pass
Spares-same cfg cfg' none s h = tt
Spares-same cfg cfg' (some reserved) s h =
    λ e. subst (λ c. contains c reserved ≡ true) (sym s.1) (h (sym s.0 ∙ e))

reserves : (h : Hold) → armed h.cfg ≡ true → contains h.cfg.relay (reserved_channels h) ≡ true
unfolding reserved_channels contains
reserves h a = rw a (first_of h.cfg.relay)
  where
    first_of : (c : ℕ) → ((c == c) || false) ≡ true
    first_of c = ground arith

pub starts-Safe : (n : Node) → Safe n → Safe (starts_pass n)
unfolding starts_pass
starts-Safe n s = record {
  fine = record { steady = s.fine.steady; mine = s.fine.mine; stands = s.fine.stands };
  foreign = s.foreign;
  spares = λ e. reserves n.hold e;
}

pub ends-Safe :
    (reading : _) (suspended : _) (t : _) (n : Node) (o : Option (List ℕ))
    → n.pass ≡ o
    → Safe n
    → Safe (end_with reading suspended t o n)
ends-Safe reading suspended t n none e s = s
ends-Safe reading suspended t n (some reserved) e s =
    let spared : Spares n.hold.cfg (some reserved) = subst (Spares n.hold.cfg) e s.spares in
    let own : n.hold.driven ≡ true → contains n.hold.driven_channel reserved ≡ true = λ d.
      let m = s.fine.mine d in subst (λ c. contains c reserved ≡ true) (sym m.1) (spared m.0) in
    let e' = (evaluate reserved reading t (note_suspended suspended (rules_of n))).1 in
    let f =
      carry n (get_or e'.relay n.relays) e' s.fine
        (rules-Allowed reserved reading suspended t n s.fine own) in
    record {
      fine = record { steady = f.steady; mine = f.mine; stands = f.stands };
      foreign = s.foreign;
      spares = tt;
    }

pub sample-Safe :
    (reading : _) (monitored : Bool) (suspended : _) (now stamp : ℕ) (n : Node)
    → Safe n
    → Safe (sample_hold reading monitored suspended now stamp n)
unfolding sample_hold
sample-Safe reading monitored suspended now stamp n s =
    let told = if monitored then suspended else some [] in
    let same = evaluate-cfg reading told now stamp (hold_of n) in
    record {
      fine = Owned-Fine _ n (evaluate-Owned reading told now stamp (hold_of n) (to-Owned n s.fine));
      foreign = subst (λ c. All (Foreign c) n.under_way) (sym same) s.foreign;
      spares = subst (λ c. Spares c n.pass) (sym same) s.spares;
    }

ask-Safe : (a : Ask) (n : Node) → Foreign n.hold.cfg a → Safe n → Safe (ask a n)
ask-Safe a n h s = record {
  fine = record { steady = s.fine.steady; mine = s.fine.mine; stands = s.fine.stands };
  foreign = All-append (Foreign n.hold.cfg) n.under_way (a ∷ []) s.foreign (h, tt);
  spares = s.spares;
}

if-Safe : (b : Bool) (x y : Node) → Safe x → (b ≡ false → Safe y) → Safe (if b then x else y)
if-Safe true x y h k = h
if-Safe false x y h k = k refl

unreserved :
    (c : ℕ) (h : Hold)
    → contains c (reserved_channels h) ≡ false
    → (armed h.cfg && c == h.cfg.relay) ≡ false
unfolding reserved_channels contains
unreserved c h e = elim (Bool-cases (armed h.cfg)) [
  | inr f ↦ rw f refl
  | inl f ↦
      let apart : ((h.cfg.relay == c) || false) ≡ false = rw f at e in rw f (ground (arith, apart))
]

pub command-Safe :
    (c : ℕ) (on : Bool) (duration : ℕ) (n : Node) → Safe n → Safe (check_command c on duration n)
unfolding check_command owns
command-Safe c on duration n s =
    if-Safe (not (check_channel c)) n _ s
      (λ _. if-Safe (armed n.hold.cfg && c == n.hold.cfg.relay) n _ s (λ free. ask-Safe _ n free s))

pub downlink-Safe :
    (fport : ℕ) (payload : List ℕ) (n : Node) → Safe n → Safe (check_downlink fport payload n)
unfolding check_downlink
downlink-Safe fport [] n s = s
downlink-Safe fport (c ∷ []) n s = s
downlink-Safe fport (c ∷ state ∷ rest) n s = if-Safe (not (fport == 100)) n _ s (λ _.
    if-Safe (not (leb 1 c && leb c 4)) n _ s (λ _.
      if-Safe (contains c (reserved_channels n.hold)) n _ s
        (λ free. ask-Safe _ n (unreserved c n.hold free) s)))

All-at :
    (P : Ask → Type 0) (i : ℕ) (asks : List Ask) (a : Ask)
    → All P asks
    → ask_at i asks ≡ some a
    → P a
unfolding ask_at
All-at P i [] a h e = absurd cc
All-at P zero (b ∷ asks) a h e = subst P (ap (λ o. elim o [ none ↦ a | some x ↦ x ]) e) h.0
All-at P (suc i) (b ∷ asks) a h e = All-at P i asks a h.1 e

All-without : (P : Ask → Type 0) (i : ℕ) (asks : List Ask) → All P asks → All P (without i asks)
unfolding without
All-without P i [] h = tt
All-without P zero (b ∷ asks) h = h.1
All-without P (suc i) (b ∷ asks) h = (h.0, All-without P i asks h.1)

not_own : (a : Bool) (c r d : ℕ) → (a && c == r) ≡ false → a ≡ true → d ≡ r → (c == d) ≡ false
not_own a c r d h armed_ e = ground arith

-- What an act leaves as it was.
record Left (n m : Node) : Type 0 where
  hold : m.hold ≡ n.hold
  under_way : m.under_way ≡ n.under_way
  pass : m.pass ≡ n.pass

act-Left : (now : ℕ) (source : Source) (a : Ask) (n : Node) → Left n (act now source a n)
unfolding act
act-Left now command a n = record { hold = refl; under_way = refl; pass = refl }
act-Left now radio a n = record { hold = refl; under_way = refl; pass = refl }

pub act_with-Safe :
    (now i : ℕ) (n : Node) (o : Option Ask)
    → ask_at i n.under_way ≡ o
    → Safe n
    → Safe (act_with now i o n)
act_with-Safe now i n none e s = s
act_with-Safe now i n (some a) e s =
    let m : Node = record n { under_way = without i n.under_way } in
    let f : Fine m = record {
      steady = s.fine.steady;
      mine = s.fine.mine;
      stands = s.fine.stands;
    } in
    let free = All-at (Foreign n.hold.cfg) i n.under_way a s.foreign e in
    let other : n.hold.driven ≡ true → (a.channel == n.hold.driven_channel) ≡ false = λ d.
      not_own (armed n.hold.cfg) a.channel n.hold.cfg.relay n.hold.driven_channel free
        (s.fine.mine d).0 (s.fine.mine d).1 in
    let left = act-Left now a.source a m in
    record {
      fine = act-Fine now a.source a m f other;
      foreign =
          rw (left.hold, left.under_way) (All-without (Foreign n.hold.cfg) i n.under_way s.foreign);
      spares = rw (left.hold, left.pass) s.spares;
    }

pub thread-Safe :
    (c id : ℕ) (valid : check_channel c ≡ true) (n : Node) → Safe n → Safe (thread c id n)
unfolding thread
thread-Safe c id valid n s = record {
  fine = unfold thread in thread-Fine c id valid n s.fine;
  foreign = s.foreign;
  spares = s.spares;
}
