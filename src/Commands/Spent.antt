-- ===== src/Commands/Spent.antt =====
-- Deliveries of a queued command of src/cloud/device_commands.py after it was carried out.
use mathlib.Core.Path.{subst}
use wqm.Prelude.{
  ℕ, ◌+◌, ◌≤◌, ◌<◌, ◌≡◌, ◌⊎◌, inl, inr, refl, sym, ap, ◌∙◌, Bool, true, false, Option, none, some,
  List, [], ◌∷◌, arith, if◌then◌else◌, get_or, Bool-cases,
}
use wqm.Prelude.Texts.{String, str_eq, find, str_eq_refl, str_eq_iff}
use wqm.Commands.{CommandOutcome, Hardware}
use wqm.Commands.Dispatch.{
  Row, Handled, Dispatcher, Readings, Command, at, keep_until, last_put, evict_expired, store,
  answer, apply, apply_id, restart,
}
use wqm.Commands.Kept.{find-last_put, find-evict}
use wqm.Commands.New.{fields-step, fields-idle}

-- What happens to the dispatcher: a delivery, or a restart of the program.
pub data Event : Type 0 where
  delivers : Readings → Bool → Command → Event
  restarts : Event

abbrev pub names_it : String → Option String → Bool
names_it x none = false
names_it x (some id) = str_eq id x

abbrev pub one_if : Bool → Bool → ℕ
one_if true true = 1
one_if true false = 0
one_if false carried = 0

module _ {World Sensors : Type 0} (hardware : Hardware World Sensors) where
  unfoldable pub happen : Event → Dispatcher World Sensors → Dispatcher World Sensors
  happen (delivers t saved c) d = (apply hardware t saved c d).after
  happen restarts d = restart d

  unfoldable pub live : List Event → Dispatcher World Sensors → Dispatcher World Sensors
  live [] d = d
  live (e ∷ es) d = live es (happen e d)

  -- How often a command with the id is carried out.
  unfoldable pub carried : String → List Event → Dispatcher World Sensors → ℕ
  carried x [] d = 0
  carried x (delivers t saved c ∷ es) d =
      one_if (names_it x c.id) (apply hardware t saved c d).carried_out
      + carried x es (happen (delivers t saved c) d)
  carried x (restarts ∷ es) d = carried x es (happen restarts d)

-- The clock does not run backwards, the file is written, and the id always comes with one expiry.
pub record Fair (x : String) (limit now : ℕ) (t : Readings) (saved : Bool) (c : Command)
    : Type 0 where
  pub first : now ≤ t.evicts
  pub second : t.evicts ≤ t.asks
  pub third : t.asks ≤ t.checks
  pub fourth : t.checks ≤ t.stores
  pub written : saved ≡ true
  pub same_expiry : c.id ≡ some x → c.expires ≡ at limit

unfoldable pub Orderly : String → ℕ → ℕ → List Event → Type 0
Orderly x limit now [] = Unit
Orderly x limit now (delivers t saved c ∷ es) =
    Fair x limit now t saved c × Orderly x limit t.stores es
Orderly x limit now (restarts ∷ es) = Orderly x limit now es

module _ {World Sensors : Type 0} (hardware : Hardware World Sensors) (x : String) (limit : ℕ)
    (o : CommandOutcome Sensors) where
  unfoldable pub Has : Handled Sensors → Type 0
  Has rows = find x rows ≡ some (record { outcome = o; expires_at = limit })

  -- The outcome is kept in memory and in the file.
  pub record Known (d : Dispatcher World Sensors) : Type 0 where
    pub memory : Has d.handled
    pub file : Has d.cache

  unfoldable pub Spent : ℕ → Dispatcher World Sensors → Type 0
  Spent now d = (limit ≤ now) ⊎ Known d

  Has-put :
      (id : String) (row : Row Sensors) (rows : Handled Sensors)
      → str_eq id x ≡ false
      → Has rows
      → Has (last_put id row rows)
  unfolding Has
  Has-put id row rows other h =
      find-last_put x id row rows ∙ (ap (λ b. if b then some row else find x rows) other ∙ h)

  pub Has-evict :
      (now : ℕ) (rows : Handled Sensors) → now < limit → Has rows → Has (evict_expired now rows)
  unfolding Has
  Has-evict now rows early h = find-evict x now _ rows early h

  -- What `store` does for another id.
  store-Known :
      (t : Readings) (id : String) (until : ℕ) (out : CommandOutcome Sensors)
      (d d' : Dispatcher World Sensors)
      → t.stores < limit
      → str_eq id x ≡ false
      → d'.handled ≡ d.handled
      → Has d.handled
      → Known (store hardware t true id until out d')
  unfolding store
  store-Known t id until out d d' early other same h =
      let kept =
        Has-put id _ (evict_expired t.stores d'.handled) other
          (Has-evict t.stores d'.handled early (subst Has (sym same) h)) in
      record { memory = kept; file = kept }

module _ {World Sensors : Type 0} (hardware : Hardware World Sensors) (x : String) (limit : ℕ)
    (o : CommandOutcome Sensors) where
  not_found : (row : Row Sensors) → none ≡ some row → ⊥
  not_found row h = cc

  same_outcome :
      (row : Row Sensors)
      → some row ≡ some (record { outcome = o; expires_at = limit })
      → row.outcome ≡ o
  same_outcome row h = ap (λ r. (get_or r row).outcome) h

  -- The id again, in time: the same outcome, and nothing is carried out.
  pub answer-known :
      (t : Readings) (saved : Bool) (c : Command) (d : Dispatcher World Sensors)
      (row : Option (Row Sensors))
      → row ≡ some (record { outcome = o; expires_at = limit })
      → ((answer hardware t saved x c row d).outcome ≡ o)
        × ((answer hardware t saved x c row d).carried_out ≡ false)
        × ((answer hardware t saved x c row d).after.world ≡ d.world)
  unfolding answer
  answer-known t saved c d none h = absurd (not_found _ h)
  answer-known t saved c d (some row) h = (same_outcome row h, refl, refl)

  -- The id again, too late.
  answer-idle :
      (t : Readings) (saved : Bool) (c : Command) (d : Dispatcher World Sensors)
      (row : Option (Row Sensors))
      → limit ≤ t.checks
      → c.expires ≡ at limit
      → (answer hardware t saved x c row d).carried_out ≡ false
  unfolding answer
  answer-idle t saved c d (some row) late same = refl
  answer-idle t saved c d none late same =
      fields-idle hardware t saved x (keep_until t.asks c.expires) limit c d late c.extra same

  deadline : (n : ℕ) → (limit ≤ n) ⊎ (n < limit)
  deadline n = omega arith

  idle_at :
      (now : ℕ) (t : Readings) (saved : Bool) (c : Command) (d : Dispatcher World Sensors)
      → Spent hardware x limit o now d
      → Fair x limit now t saved c
      → c.expires ≡ at limit
      → (apply_id hardware t saved (some x) c d).carried_out ≡ false
  unfolding Spent Has
  idle_at now t saved c d spent fair same = elim (deadline t.checks) [
    | inl late ↦ answer-idle t saved c _ (find x (evict_expired t.evicts d.handled)) late same
    | inr early ↦ elim spent [
      | inl over ↦ absurd (omega (arith, over, early, fair.first, fair.second, fair.third))
      | inr k ↦
          (answer-known t saved c _ (find x (evict_expired t.evicts d.handled)) (
            Has-evict hardware x limit o t.evicts d.handled
              (omega (arith, early, fair.second, fair.third)) k.memory)).1
    ]
  ]

  pub Spent-idle :
      (now : ℕ) (t : Readings) (saved : Bool) (c : Command) (d : Dispatcher World Sensors)
      → Spent hardware x limit o now d
      → Fair x limit now t saved c
      → c.id ≡ some x
      → (apply hardware t saved c d).carried_out ≡ false
  Spent-idle now t saved c d spent fair named =
      subst (λ i. (apply_id hardware t saved i c d).carried_out ≡ false) (sym named)
        (idle_at now t saved c d spent fair (fair.same_expiry named))

  -- The row that is found for the id stays its row.
  same-Known :
      (t : Readings) (c : Command) (d : Dispatcher World Sensors) (row : Option (Row Sensors))
      → row ≡ some (record { outcome = o; expires_at = limit })
      → Known hardware x limit o d
      → Known hardware x limit o (answer hardware t true x c row d).after
  unfolding answer Has
  same-Known t c d none h k = absurd (not_found _ h)
  same-Known t c d (some row) h k = record {
    memory =
        find-last_put x x row d.handled
        ∙ (ap (λ b. if b then some row else find x d.handled) (str_eq_refl x) ∙ h);
    file = k.file;
  }

  -- Another id leaves the row where it is.
  other-Known :
      (t : Readings) (id : String) (c : Command) (d : Dispatcher World Sensors)
      (row : Option (Row Sensors))
      → t.stores < limit
      → str_eq id x ≡ false
      → Known hardware x limit o d
      → Known hardware x limit o (answer hardware t true id c row d).after
  unfolding answer
  other-Known t id c d (some row) early other k = record {
    memory = Has-put hardware x limit o id row d.handled other k.memory;
    file = k.file;
  }
  other-Known t id c d none early other k =
      fields-step hardware (λ out d'. Known hardware x limit o d') t id
        (keep_until t.asks c.expires) d
        (λ out d' same.
          store-Known hardware x limit o t id (keep_until t.asks c.expires) out d d' early other
            same k.memory)
        c.extra c

  id-Known :
      (t : Readings) (i : Option String) (c : Command) (d : Dispatcher World Sensors)
      → t.evicts < limit
      → t.stores < limit
      → Known hardware x limit o d
      → Known hardware x limit o (apply_id hardware t true i c d).after
  unfolding Has
  id-Known t none c d e s k = k
  id-Known t (some id) c d e s k =
      let rows = evict_expired t.evicts d.handled in
      let h = Has-evict hardware x limit o t.evicts d.handled e k.memory in
      let k' : Known hardware x limit o (record d { handled = rows }) = record {
        memory = h;
        file = k.file;
      } in
      elim (Bool-cases (str_eq id x)) [
        | inr other ↦ other-Known t id c (record d { handled = rows }) (find id rows) s other k'
        | inl same ↦
            subst
              (λ i.
                Known hardware x limit o
                  (answer hardware t true i c (find i rows) (record d { handled = rows })).after)
              (sym ((str_eq_iff id x).0 same))
              (same-Known t c (record d { handled = rows }) (find x rows) h k')
      ]

  pub Spent-happen :
      (now : ℕ) (t : Readings) (saved : Bool) (c : Command) (d : Dispatcher World Sensors)
      → Spent hardware x limit o now d
      → Fair x limit now t saved c
      → Spent hardware x limit o t.stores (happen hardware (delivers t saved c) d)
  unfolding happen Spent
  Spent-happen now t saved c d spent fair = elim (deadline t.stores) [
    | inl late ↦ inl late
    | inr early ↦ elim spent [
      | inl over ↦
          absurd (omega (arith, over, early, fair.first, fair.second, fair.third, fair.fourth))
      | inr k ↦ inr (
          subst (λ b. Known hardware x limit o (apply hardware t b c d).after) (sym fair.written)
            (id-Known t c.id c d (omega (arith, early, fair.second, fair.third, fair.fourth)) early
              k))
    ]
  ]
