-- ===== src/Sensing/Cause.antt =====
-- Why src/sensing/adaptive.py samples fast: two values that were observed.
use wqm.Prelude.{
  ℕ, ◌-◌, ◌*◌, ◌≤◌, ◌<◌, ◌≡◌, ◌⊎◌, inl, inr, refl, sym, ap, ◌∙◌, true, not, ◌||◌, Option, none,
  some, List, [], ◌∷◌, String, arith, get_or, Bool-cases, All, if◌then◌else◌,
}
use wqm.Prelude.Int.{ℤ, ◌-ℤ◌, abs}
use wqm.Prelude.Texts.{find, put_name, find-put_name, str_eq, str_eq_iff}
use wqm.Sensing.Adaptive.{
  Settings, Sampler, init, normal, held_long_enough, decay_from, maybe_decay, is_fast, trigger,
  take_value, observe_fields, observe, is_normal, current_interval_s, status, sensor_ranges,
}

-- What is asked of a sampler, with the settings and the clock at that time.
pub data Call : Type 0 where
  observed : Settings → ℕ → List (String × Option ℤ) → Call
  paced : Settings → ℕ → Call
  shown : Settings → ℕ → Call

unfoldable pub serve : Call → Sampler → Sampler
serve (observed cfg now reading) a = observe cfg now reading a
serve (paced cfg now) a = (current_interval_s cfg now a).1
serve (shown cfg now) a = (status cfg now a).1

unfoldable pub serve_all : List Call → Sampler → Sampler
serve_all [] a = a
serve_all (call ∷ calls) a = serve_all calls (serve call a)

pub status-decays :
    (cfg : Settings) (now : ℕ) (a : Sampler) → (status cfg now a).1 ≡ maybe_decay cfg now a
unfolding status
status-decays cfg now a =
    elim (Bool-cases (not cfg.enabled || is_normal (maybe_decay cfg now a).fast_since)) [
      | inl e ↦ rw e refl
      | inr e ↦ rw e refl
    ]

-- One of the calls observed the value of the field at that time, with the settings.
abbrev pub SeenIn : Call → Settings → String → ℕ → ℤ → Type 0
SeenIn (observed cfg now reading) c field t v =
    (c ≡ cfg) × (t ≡ now) × (find field reading ≡ some (some v))
SeenIn _ c field t v = ⊥

unfoldable pub Seen : List Call → Settings → String → ℕ → ℤ → Type 0
Seen [] c field t v = ⊥
Seen (call ∷ calls) c field t v = SeenIn call c field t v ⊎ Seen calls c field t v

-- A value that was observed at the time had changed, from one that was observed before, by at least the
-- threshold: by so many ten-thousandths of a percent of the sensor's range a minute.
pub record Cause (H : Settings → String → ℕ → ℤ → Type 0) (at : ℕ) : Type 0 where
  pub cfg : Settings
  pub enabled : cfg.enabled ≡ true
  pub field : String
  pub range : ℕ
  pub of_sensor : find field sensor_ranges ≡ some range
  pub value : ℤ
  pub seen : H cfg field at value
  pub before : Settings
  pub since : ℕ
  pub old_value : ℤ
  pub seen_before : H before field since old_value
  pub earlier : since < at
  pub fast :
      cfg.delta_threshold * range * (at - since) ≤ abs (value -ℤ old_value) * 100 * 60000 * 10000

module _ (H : Settings → String → ℕ → ℤ → Type 0) where
  Covers : Call → Type 0
  Covers (observed cfg now reading) =
      (field : String) (v : ℤ) → find field reading ≡ some (some v) → H cfg field now v
  Covers _ = Unit

  -- What a sampler remembers was observed, and what triggered it has its cause.
  pub record Known (a : Sampler) : Type 0 where
    pub last :
        (field : String) (t : ℕ) (v : ℤ)
        → find field a.last ≡ some (t, v)
        → ((c : Settings) × H c field t v)
    pub cause : (at : ℕ) → a.last_trigger ≡ some at → Cause H at

  no_trigger : (at : ℕ) → none ≡ some at → ⊥
  no_trigger at h = cc

  normal-Known : (a : Sampler) → Known a → Known (normal a)
  normal-Known a k = record { last = k.last; cause = λ at h. absurd (no_trigger at h) }

  pub decay-Known :
      (o : Option ℕ) (cfg : Settings) (now : ℕ) (a : Sampler)
      → Known a
      → Known (decay_from o cfg now a)
  unfolding decay_from
  decay-Known none cfg now a k = k
  decay-Known (some since) cfg now a k =
      elim (Bool-cases (not cfg.enabled || held_long_enough cfg now a.last_trigger)) [
        | inl e ↦ rw e (normal-Known a k)
        | inr e ↦ rw e k
      ]

  entry_of : (x y : ℕ × ℤ) → some x ≡ some y → x ≡ y
  entry_of x y h = ap (λ o. get_or o x) h

  noted-last :
      (cfg : Settings) (now : ℕ) (field : String) (v : ℤ) (a : Sampler)
      → H cfg field now v
      → Known a
      → (f : String) (t : ℕ) (u : ℤ) → find f (put_name field (now, v) a.last) ≡ some (t, u)
      → ((c : Settings) × H c f t u)
  noted-last cfg now field v a seen k f t u h =
      let there : (if str_eq field f then some (now, v) else find f a.last) ≡ some (t, u) =
        sym (find-put_name f field (now, v) a.last) ∙ h in
      elim (Bool-cases (str_eq field f)) [
        | inr e ↦ k.last f t u (rw e at there)
        | inl e ↦
            let same = (str_eq_iff field f).0 e in
            let entry = entry_of (now, v) (t, u) (rw e at there) in
            let at_t : now ≡ t = ap (λ x. x.0) entry in
            let of_u : v ≡ u = ap (λ x. x.1) entry in (cfg, rw (← same, ← at_t, ← of_u) seen)
      ]

  fast-Cause :
      (cfg : Settings) (now : ℕ) (field : String) (range : ℕ) (v : ℤ) (a : Sampler)
      → find field sensor_ranges ≡ some range
      → H cfg field now v
      → Known a
      → (o : Option (ℕ × ℤ)) → find field a.last ≡ o
      → is_fast cfg range now v o ≡ true
      → Cause H now
  unfolding is_fast
  fast-Cause cfg now field range v a ranged seen k none h fast = absurd cc
  fast-Cause cfg now field range v a ranged seen k (some (t, u)) h fast =
      let (before, old) = k.last field t u h in
      record {
        cfg = cfg;
        enabled = ground (arith, fast);
        field = field;
        range = range;
        of_sensor = ranged;
        value = v;
        seen = seen;
        before = before;
        since = t;
        old_value = u;
        seen_before = old;
        earlier = ground (arith, fast);
        fast = ground (arith, fast);
      }

  time_of : (s t : ℕ) → some s ≡ some t → s ≡ t
  time_of s t h = ap (λ o. get_or o s) h

  take-Known :
      (cfg : Settings) (now : ℕ) (field : String) (range : ℕ) (o : Option ℤ) (a : Sampler)
      → find field sensor_ranges ≡ some range
      → ((v : ℤ) → o ≡ some v → H cfg field now v)
      → Known a
      → Known (take_value cfg now field range o a)
  unfolding take_value trigger
  take-Known cfg now field range none a ranged seen k = k
  take-Known cfg now field range (some v) a ranged seen k =
      let here = seen v refl in
      let last = noted-last cfg now field v a here k in
      elim (Bool-cases (is_fast cfg range now v (find field a.last))) [
        | inr e ↦ rw e (record { last = last; cause = k.cause })
        | inl e ↦
            let cause =
              fast-Cause cfg now field range v a ranged here k (find field a.last) refl e in
            rw e (record { last = last; cause = λ at h. rw (← (time_of now at h)) cause })
      ]

  read : (o : Option (Option ℤ)) (v : ℤ) → get_or o none ≡ some v → o ≡ some (some v)
  read none v h = absurd cc
  read (some o) v h = ap some h

  fields-Known :
      (cfg : Settings) (now : ℕ) (reading : List (String × Option ℤ)) (fields : List (String × ℕ))
      → (a : Sampler) → All (λ f. find f.0 sensor_ranges ≡ some f.1) fields
      → Covers (observed cfg now reading)
      → Known a
      → Known (observe_fields cfg now reading fields a)
  unfolding observe_fields Covers
  fields-Known cfg now reading [] a ranged seen k = k
  fields-Known cfg now reading ((field, range) ∷ fields) a ranged seen k =
      fields-Known cfg now reading fields
        (take_value cfg now field range (get_or (find field reading) none) a) ranged.1 seen
        (take-Known cfg now field range (get_or (find field reading) none) a ranged.0
          (λ v h. seen field v (read (find field reading) v h)) k)

  ranges : All (λ (f : String × ℕ). find f.0 sensor_ranges ≡ some f.1) sensor_ranges
  unfolding find
  ranges = (refl, (refl, (refl, (refl, (refl, (refl, tt))))))

  serve-Known : (call : Call) (a : Sampler) → Covers call → Known a → Known (serve call a)
  unfolding serve observe current_interval_s maybe_decay
  serve-Known (observed cfg now reading) a seen k =
      decay-Known _ cfg now _ (fields-Known cfg now reading sensor_ranges a ranges seen k)
  serve-Known (paced cfg now) a seen k = decay-Known a.fast_since cfg now a k
  serve-Known (shown cfg now) a seen k =
      rw (status-decays cfg now a) (decay-Known a.fast_since cfg now a k)

  serve_all-Known :
      (calls : List Call) (a : Sampler) → All Covers calls → Known a → Known (serve_all calls a)
  unfolding serve_all
  serve_all-Known [] a seen k = k
  serve_all-Known (call ∷ calls) a seen k =
      serve_all-Known calls (serve call a) seen.1 (serve-Known call a seen.0 k)

  no_entry : (x : ℕ × ℤ) → none ≡ some x → ⊥
  no_entry x h = cc

  init-Known : Known init
  unfolding find
  init-Known = record {
    last = λ field t v h. absurd (no_entry (t, v) h);
    cause = λ at h. absurd (no_trigger at h);
  }

  covered :
      (calls : List Call)
      → ((c : Settings) (field : String) (t : ℕ) (v : ℤ) → Seen calls c field t v → H c field t v)
      → All Covers calls
  unfolding Seen Covers
  covered [] h = tt
  covered (observed cfg now reading ∷ calls) h = (
    λ field v found. h cfg field now v (inl (refl, refl, found)),
    covered calls (λ c field t v seen. h c field t v (inr seen)),
  )
  covered (paced cfg now ∷ calls) h =
      (tt, covered calls (λ c field t v seen. h c field t v (inr seen)))
  covered (shown cfg now ∷ calls) h =
      (tt, covered calls (λ c field t v seen. h c field t v (inr seen)))

-- After any calls from the start, what the sampler knows was observed in them.
pub all-Known : (calls : List Call) → Known (Seen calls) (serve_all calls init)
all-Known calls =
    serve_all-Known (Seen calls) calls init (covered (Seen calls) calls (λ c field t v seen. seen))
      (init-Known (Seen calls))
