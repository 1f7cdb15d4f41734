-- ===== src/Commands/Once.antt =====
-- A queued command of src/cloud/device_commands.py is carried out once, whatever is delivered again.
use mathlib.Core.Path.{subst}
use wqm.Prelude.{
  ℕ, ◌≤◌, ◌<◌, ◌≡◌, ◌⊎◌, inl, inr, refl, sym, ap, ◌∙◌, Bool, true, false, Option, none, some, List,
  [], ◌∷◌, arith, if◌then◌else◌, Bool-cases,
}
use wqm.Prelude.Texts.{String, str_eq, find, str_eq_refl, str_eq_iff}
use wqm.Commands.{CommandOutcome, Hardware}
use wqm.Commands.Dispatch.{
  Row, Dispatcher, Readings, Command, at, keep_until, last_put, evict_expired, store, answer, apply,
  apply_id, restart,
}
use wqm.Commands.Kept.{find-last_put}
use wqm.Commands.New.{fields-step}
use wqm.Commands.Spent.{
  Event, delivers, restarts, happen, live, carried, one_if, names_it, Fair, Orderly, Has, Known,
  Spent, Has-evict, Spent-idle, Spent-happen, answer-known,
}

false-true : false ≡ true → ⊥
false-true h = cc

-- A delivery that carries nothing out, or is of another id, does not count.
quiet :
    (x : String) (i : Option String) (b : Bool)
    → (i ≡ some x → b ≡ false)
    → one_if (names_it x i) b ≡ 0
quiet x none b h = refl
quiet x (some id) b h = elim (Bool-cases (str_eq id x)) [
  | inl e ↦ rw (e, h (ap some ((str_eq_iff id x).0 e))) refl
  | inr e ↦ rw e refl
]

-- A delivery counts for at most one, and for one only if it is of the id and carries it out.
loud :
    (x : String) (i : Option String) (b : Bool)
    → (one_if (names_it x i) b ≡ 0) ⊎ ((one_if (names_it x i) b ≡ 1) × (i ≡ some x) × (b ≡ true))
loud x none b = inl refl
loud x (some id) b = elim (Bool-cases (str_eq id x)) [
  | inr e ↦ inl (rw e refl)
  | inl e ↦ elim (Bool-cases b) [
    | inl yes_it ↦ inr (rw (e, yes_it) refl, ap some ((str_eq_iff id x).0 e), yes_it)
    | inr not_it ↦ inl (rw (e, not_it) refl)
  ]
]

-- The time after some deliveries.
unfoldable pub ends : ℕ → List Event → ℕ
ends now [] = now
ends now (delivers t saved c ∷ es) = ends t.stores es
ends now (restarts ∷ es) = ends now es

module _ {World Sensors : Type 0} (hardware : Hardware World Sensors) (x : String) (limit : ℕ) where
  restart-Spent :
      (o : CommandOutcome Sensors) (now : ℕ) (d : Dispatcher World Sensors)
      → Spent hardware x limit o now d
      → Spent hardware x limit o now (restart d)
  unfolding Spent restart
  restart-Spent o now d (inl late) = inl late
  restart-Spent o now d (inr k) = inr (record { memory = k.file; file = k.file })

  live-Spent :
      (o : CommandOutcome Sensors) (es : List Event) (now : ℕ) (d : Dispatcher World Sensors)
      → Spent hardware x limit o now d
      → Orderly x limit now es
      → Spent hardware x limit o (ends now es) (live hardware es d)
  unfolding live ends Orderly happen
  live-Spent o [] now d spent orderly = spent
  live-Spent o (delivers t saved c ∷ es) now d spent orderly =
      live-Spent o es t.stores (apply hardware t saved c d).after
        (Spent-happen hardware x limit o now t saved c d spent orderly.0) orderly.1
  live-Spent o (restarts ∷ es) now d spent orderly =
      live-Spent o es now (restart d) (restart-Spent o now d spent) orderly

  none_more :
      (o : CommandOutcome Sensors) (es : List Event) (now : ℕ) (d : Dispatcher World Sensors)
      → Spent hardware x limit o now d
      → Orderly x limit now es
      → carried hardware x es d ≡ 0
  unfolding carried Orderly happen
  none_more o [] now d spent orderly = refl
  none_more o (delivers t saved c ∷ es) now d spent orderly =
      let here =
        quiet x c.id (apply hardware t saved c d).carried_out
          (Spent-idle hardware x limit o now t saved c d spent orderly.0) in
      let rest =
        none_more o es t.stores (apply hardware t saved c d).after
          (Spent-happen hardware x limit o now t saved c d spent orderly.0) orderly.1 in
      omega (arith, here, rest)
  none_more o (restarts ∷ es) now d spent orderly =
      none_more o es now (restart d) (restart-Spent o now d spent) orderly

  -- What is carried out is kept.
  answer-kept :
      (t : Readings) (c : Command) (d : Dispatcher World Sensors) (row : Option (Row Sensors))
      → c.expires ≡ at limit
      → (answer hardware t true x c row d).carried_out ≡ true
      → Known hardware x limit
          (answer hardware t true x c row d).outcome
          (answer hardware t true x c row d).after
  unfolding answer store Has
  answer-kept t c d (some row) same h = absurd (false-true h)
  answer-kept t c d none same h =
      let until : keep_until t.asks c.expires ≡ limit = ap (keep_until t.asks) same in
      fields-step hardware (λ out d'. Known hardware x limit out d') t x
        (keep_until t.asks c.expires) d
        (λ out d' kept.
          let row : find x (
                last_put x (record { outcome = out; expires_at = keep_until t.asks c.expires })
                  (evict_expired t.stores d'.handled))
              ≡ some (record { outcome = out; expires_at = limit }) =
            find-last_put x x _ (evict_expired t.stores d'.handled)
            ∙ (ap
                  (λ b.
                    if b
                    then some (record { outcome = out; expires_at = keep_until t.asks c.expires })
                    else find x (evict_expired t.stores d'.handled))
                  (str_eq_refl x)
                ∙ ap (λ u. some (record { outcome = out; expires_at = u })) until) in
          record { memory = row; file = row })
        c.extra c

  carried-Known :
      (now : ℕ) (t : Readings) (saved : Bool) (c : Command) (d : Dispatcher World Sensors)
      → Fair x limit now t saved c
      → c.id ≡ some x
      → (apply hardware t saved c d).carried_out ≡ true
      → Known hardware x limit
          (apply hardware t saved c d).outcome
          (apply hardware t saved c d).after
  carried-Known now t saved c d fair named =
      let Goal : Option String → Bool → Type 0 = λ i b.
        (apply_id hardware t b i c d).carried_out ≡ true
        → Known hardware x limit (apply_id hardware t b i c d).outcome
            (apply_id hardware t b i c d).after in
      let rows = evict_expired t.evicts d.handled in
      subst (λ i. Goal i saved) (sym named)
        (subst (Goal (some x)) (sym fair.written)
          (answer-kept t c (record d { handled = rows }) (find x rows) (fair.same_expiry named)))

  -- From whatever the dispatcher has kept, and through any deliveries and restarts, a command is carried
  -- out at most once, if its id always comes with one expiry, the clock does not run backwards and the
  -- file of outcomes is written.
  pub carried_once :
      (es : List Event) (now : ℕ) (d : Dispatcher World Sensors)
      → Orderly x limit now es
      → carried hardware x es d ≤ 1
  unfolding carried Orderly happen Spent
  carried_once [] now d orderly = omega arith
  carried_once (restarts ∷ es) now d orderly = carried_once es now (restart d) orderly
  carried_once (delivers t saved c ∷ es) now d orderly =
      let after = (apply hardware t saved c d).after in
      elim (loud x c.id (apply hardware t saved c d).carried_out) [
        | inl none_here ↦ omega (arith, none_here, carried_once es t.stores after orderly.1)
        | inr (one_here, named, ran) ↦
            let rest =
              none_more (apply hardware t saved c d).outcome es t.stores after
                (inr (carried-Known now t saved c d orderly.0 named ran)) orderly.1 in
            omega (arith, one_here, rest)
      ]

  -- Delivered again before it expires, after any deliveries and restarts, a command that was carried out
  -- is answered with the outcome that it had, and the hardware is left alone, if its id always comes with
  -- one expiry, the clock does not run backwards and the file of outcomes is written.
  pub redelivered_same :
      (now : ℕ) (t : Readings) (saved : Bool) (c : Command) (es : List Event) (t' : Readings)
      (saved' : Bool) (c' : Command) (d : Dispatcher World Sensors)
      → Fair x limit now t saved c
      → c.id ≡ some x
      → (apply hardware t saved c d).carried_out ≡ true
      → Orderly x limit t.stores es
      → c'.id ≡ some x
      → ends t.stores es ≤ t'.evicts
      → t'.evicts < limit
      → let first = apply hardware t saved c d in
        let d' = live hardware es first.after in
        let again = apply hardware t' saved' c' d' in
        (again.outcome ≡ first.outcome)
        × (again.carried_out ≡ false)
        × (again.after.world ≡ d'.world)
  unfolding Spent Has
  redelivered_same now t saved c es t' saved' c' d fair named ran orderly named' after early =
      let first = apply hardware t saved c d in
      let d' = live hardware es first.after in
      let Goal : Option String → Type 0 = λ i.
        let again = apply_id hardware t' saved' i c' d' in
        (again.outcome ≡ first.outcome)
        × (again.carried_out ≡ false)
        × (again.after.world ≡ d'.world) in
      elim (live-Spent first.outcome es t.stores first.after
        (inr (carried-Known now t saved c d fair named ran)) orderly) [
          | inl late ↦ absurd (omega (arith, late, after, early))
          | inr k ↦
              let rows = evict_expired t'.evicts d'.handled in
              subst Goal (sym named') (
                answer-known hardware x limit first.outcome t' saved' c'
                  (record d' { handled = rows }) (find x rows)
                  (Has-evict hardware x limit first.outcome t'.evicts d'.handled early k.memory))
        ]
