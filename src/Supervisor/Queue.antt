-- ===== src/Supervisor/Queue.antt =====
-- The bounded queue of device events in src/app/state.py.
use wqm.Prelude.{
  ℕ, zero, suc, ◌+◌, ◌≤◌, ◌≡◌, refl, sym, ap, ◌∙◌, inl, inr, Bool, true, false, List, [], ◌∷◌, ◌++◌,
  arith, leb, min, take, if◌then◌else◌, length, length-append, Bool-cases,
}

abbrev pub max_events : ℕ
max_events = 100

pub data Call {ℓ} (E : Type ℓ) : Type ℓ where
  emits : E → Call E
  drains : ℕ → Call E

-- The queue, with what it has taken in and what it has given out, each in order.
pub record Traffic {ℓ} (E : Type ℓ) : Type ℓ where
  pub queue : List E
  pub accepted : List E
  pub delivered : List E

-- The abstract queue: a log, and how many of its events have been delivered.
pub record Log {ℓ} (E : Type ℓ) : Type ℓ where
  pub events : List E
  pub given : ℕ

module _ {ℓ} {E : Type ℓ} where
  unfoldable pub emit_event : E → List E → Bool × List E
  emit_event event queue =
      if leb max_events (length queue) then (false, queue) else (true, queue ++ event ∷ [])

  -- The events that were taken, and the queue that is left.
  unfoldable pub drain_events : ℕ → List E → List E × List E
  drain_events zero queue = ([], queue)
  drain_events (suc limit) [] = ([], [])
  drain_events (suc limit) (event ∷ queue) =
      let rest = drain_events limit queue in (event ∷ rest.0, rest.1)

  abbrev taken_in : Bool → E → List E → List E
  taken_in true event accepted = accepted ++ event ∷ []
  taken_in false event accepted = accepted

  unfoldable pub serve : Call E → Traffic E → Traffic E
  serve (emits event) t =
      let out = emit_event event t.queue in
      record { queue = out.1; accepted = taken_in out.0 event t.accepted; delivered = t.delivered }
  serve (drains limit) t =
      let out = drain_events limit t.queue in
      record { queue = out.1; accepted = t.accepted; delivered = t.delivered ++ out.0 }

  unfoldable pub serve_all : List (Call E) → Traffic E → Traffic E
  serve_all [] t = t
  serve_all (call ∷ calls) t = serve_all calls (serve call t)

  append_assoc : (xs ys zs : List E) → (xs ++ ys) ++ zs ≡ xs ++ (ys ++ zs)
  append_assoc [] ys zs = refl
  append_assoc (x ∷ xs) ys zs = ap (λ l. x ∷ l) (append_assoc xs ys zs)

  drain-split :
      (limit : ℕ) (queue : List E)
      → (drain_events limit queue).0 ++ (drain_events limit queue).1 ≡ queue
  unfolding drain_events
  drain-split zero queue = refl
  drain-split (suc limit) [] = refl
  drain-split (suc limit) (event ∷ queue) = ap (λ l. event ∷ l) (drain-split limit queue)

  drain-length : (limit : ℕ) (queue : List E) → length (drain_events limit queue).1 ≤ length queue
  unfolding drain_events
  drain-length zero queue = omega arith
  drain-length (suc limit) [] = omega arith
  drain-length (suc limit) (event ∷ queue) = omega (arith, drain-length limit queue)

  pub record Inv (t : Traffic E) : Type ℓ where
    pub in_order : t.accepted ≡ t.delivered ++ t.queue
    pub bounded : length t.queue ≤ max_events

  serve-Inv : (call : Call E) (t : Traffic E) → Inv t → Inv (serve call t)
  unfolding serve emit_event
  serve-Inv (emits event) t v = elim (Bool-cases (leb max_events (length t.queue))) [
    | inl full ↦ rw full v
    | inr room ↦ rw room (record {
      in_order =
          ap (λ l. l ++ event ∷ []) v.in_order ∙ append_assoc t.delivered t.queue (event ∷ []);
      bounded = ground (arith, length-append t.queue (event ∷ []));
    })
  ]
  serve-Inv (drains limit) t v = record {
    in_order =
        v.in_order
        ∙ (ap (λ l. t.delivered ++ l) (sym (drain-split limit t.queue))
            ∙ sym (
                append_assoc t.delivered (drain_events limit t.queue).0
                  (drain_events limit t.queue).1));
    bounded = omega (arith, v.bounded, drain-length limit t.queue);
  }

  serve_all-Inv : (calls : List (Call E)) (t : Traffic E) → Inv t → Inv (serve_all calls t)
  unfolding serve_all
  serve_all-Inv [] t v = v
  serve_all-Inv (call ∷ calls) t v = serve_all-Inv calls (serve call t) (serve-Inv call t v)

  abbrev pub no_traffic : Traffic E
  no_traffic = record { queue = []; accepted = []; delivered = [] }

  -- What a log does: it takes an event while fewer than 100 wait, and gives out as many as there are.
  unfoldable pub log_serve : Call E → Log E → Log E
  log_serve (emits event) log =
      if leb (log.given + max_events) (length log.events)
      then log
      else record log { events = log.events ++ event ∷ [] }
  log_serve (drains limit) log = record log { given = min (log.given + limit) (length log.events) }

  unfoldable pub log_all : List (Call E) → Log E → Log E
  log_all [] log = log
  log_all (call ∷ calls) log = log_all calls (log_serve call log)

  abbrev pub log_of : Traffic E → Log E
  log_of t = record { events = t.accepted; given = length t.delivered }

  drained :
      (limit : ℕ) (queue : List E) → length (drain_events limit queue).0 ≡ min limit (length queue)
  unfolding drain_events
  drained zero queue = omega arith
  drained (suc limit) [] = omega arith
  drained (suc limit) (event ∷ queue) = omega (arith, drained limit queue)

  log_serve-serve :
      (call : Call E) (t : Traffic E) → Inv t → log_of (serve call t) ≡ log_serve call (log_of t)
  unfolding serve emit_event log_serve
  log_serve-serve (emits event) t v =
      let size : length t.accepted ≡ length t.delivered + length t.queue =
        ap length v.in_order ∙ length-append t.delivered t.queue in
      let same : leb (length t.delivered + max_events) (length t.accepted)
          ≡ leb max_events (length t.queue) =
        ground (arith, size) in
      elim (Bool-cases (leb max_events (length t.queue))) [
        | inl full ↦ rw (same, full) refl
        | inr room ↦ rw (same, room) refl
      ]
  log_serve-serve (drains limit) t v =
      let size : length t.accepted ≡ length t.delivered + length t.queue =
        ap length v.in_order ∙ length-append t.delivered t.queue in
      let given : length (t.delivered ++ (drain_events limit t.queue).0)
          ≡ min (length t.delivered + limit) (length t.accepted) =
        omega (
          arith,
          size,
          drained limit t.queue,
          length-append t.delivered (drain_events limit t.queue).0,
        ) in
      ap (λ n. record { events = t.accepted; given = n }) given

  log_all-serve_all :
      (calls : List (Call E)) (t : Traffic E)
      → Inv t
      → log_of (serve_all calls t) ≡ log_all calls (log_of t)
  unfolding serve_all log_all
  log_all-serve_all [] t v = refl
  log_all-serve_all (call ∷ calls) t v =
      log_all-serve_all calls (serve call t) (serve-Inv call t v)
      ∙ ap (log_all calls) (log_serve-serve call t v)

  take-all : (xs ys : List E) → take (length xs) (xs ++ ys) ≡ xs
  take-all [] [] = refl
  take-all [] (y ∷ ys) = refl
  take-all (x ∷ xs) ys = ap (λ l. x ∷ l) (take-all xs ys)

  -- The queue implements a log: after any calls of `emit_event` and `drain_events` it has accepted the
  -- events of the log, has delivered as many, and those are the first of the log, in its order; at most
  -- 100 wait.
  pub queue_refines_log :
      (calls : List (Call E))
      → let t = serve_all calls no_traffic in
        let log = log_all calls (record { events = []; given = 0 }) in
        (t.accepted ≡ log.events)
        × (t.delivered ≡ take log.given log.events)
        × (length t.queue ≤ max_events)
  queue_refines_log calls =
      let t = serve_all calls no_traffic in
      let v = serve_all-Inv calls no_traffic (record { in_order = refl; bounded = omega arith }) in
      let same =
        log_all-serve_all calls no_traffic (record { in_order = refl; bounded = omega arith }) in
      (
        ap (λ (l : Log E). l.events) same,
        sym (take-all t.delivered t.queue)
            ∙ (ap (take (length t.delivered)) (sym v.in_order)
                ∙ ap (λ (l : Log E). take l.given l.events) same),
        v.bounded,
      )
