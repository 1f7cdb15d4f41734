-- ===== src/Hold/Timing.antt =====
-- When the irrigation hold engages and when it lets go.
use wqm.Prelude.{
  ℕ, suc, ◌+◌, ◌-◌, ◌≡◌, ◌∙◌, refl, sym, inl, inr, Bool-cases, Bool, true, false, ◌&&◌, ◌||◌,
  Option, none, some, List, [], ◌∷◌, length, ◌<◌, arith, ltb, leb, get_or, if◌then◌else◌,
}
use wqm.Prelude.Texts.{String}
use wqm.Hold.Config.{armed}
use wqm.Hold.Scan.{Reason, Reading, scan, is_some_reason}
use wqm.Hold.{Hold, evaluate, judge, follow, is_release}
use wqm.Hold.Invariant.{heard}
use wqm.Hold.Safety.{evaluate_lem, follow-keeps, heard-keeps, heard-cfg}

-- What one sample brings.
pub record Sample : Type 0 where
  pub reading : Reading
  pub suspended : Option (List String)
  pub now : ℕ
  pub stamp : ℕ

unfoldable pub take_sample : Hold → Sample → Hold
take_sample h s = evaluate s.reading s.suspended s.now s.stamp h

unfoldable pub take_all : Hold → List Sample → Hold
take_all h [] = h
take_all h (s ∷ ss) = take_all (take_sample h s) ss

-- The scan of a sample's conditions.
unfoldable pub findings : Hold → Sample → List Reason × Bool
findings h s = scan s.reading (get_or s.suspended h.last_suspended) h.cfg.thresholds

-- A condition trips, or a probe is lost and the engine is set to hold through that.
abbrev pub Trips : Hold → Sample → Type 0
Trips h s =
    ((findings h s).1 && is_release h.cfg.on_fault ≡ false)
    × (is_some_reason (findings h s).0 || (findings h s).1 ≡ true)

-- Every condition can be read and none trips.
abbrev pub IsClear : Hold → Sample → Type 0
IsClear h s = (is_some_reason (findings h s).0 ≡ false) × ((findings h s).1 ≡ false)

abbrev pub AllTrip : Hold → List Sample → Type 0
AllTrip h [] = Unit
AllTrip h (s ∷ ss) = Trips h s × AllTrip (take_sample h s) ss

module _ (h : Hold) (s : Sample) (a : armed h.cfg ≡ true) where
  abbrev h' : Hold
  h' = heard s.suspended s.now h

  take_sample_lem : take_sample h s ≡ follow s.now (judge s.now s.stamp (findings h s) h')
  unfolding take_sample findings
  take_sample_lem =
      rw (evaluate_lem s.reading s.suspended s.now s.stamp h a, (heard-keeps s.suspended s.now h).0)

  judge-Trips :
      Trips h s
      → let j = judge s.now s.stamp (findings h s) h' in
        (j.trip_count ≡ suc h'.trip_count)
        × (j.holding ≡ (h'.holding || leb h'.cfg.trip_samples (suc h'.trip_count)))
        × (j.cfg ≡ h'.cfg)
        × (j.clear_since ≡ none)
  unfolding judge
  judge-Trips t = ground (arith, heard-cfg s.suspended s.now h)

  sample-Trips :
      Trips h s
      → ((take_sample h s).trip_count ≡ suc h.trip_count)
        × ((take_sample h s).holding ≡ (h.holding || leb h.cfg.trip_samples (suc h.trip_count)))
        × ((take_sample h s).cfg ≡ h.cfg)
        × ((take_sample h s).clear_since ≡ none)
  sample-Trips t = rw take_sample_lem (
      ground (
        arith,
        judge-Trips t,
        follow-keeps s.now (judge s.now s.stamp (findings h s) h'),
        heard-keeps s.suspended s.now h,
        heard-cfg s.suspended s.now h,
      ))

  judge-clear :
      IsClear h s
      → let j = judge s.now s.stamp (findings h s) h' in
        (j.holding ≡ (h'.holding && ltb (s.now - get_or h'.clear_since s.now) h'.cfg.release))
        × (j.trip_count ≡ 0)
        × (j.clear_since ≡ (
            if h'.holding
            then if ltb (s.now - get_or h'.clear_since s.now) h'.cfg.release
              then some (get_or h'.clear_since s.now)
              else none
            else h'.clear_since))
        × (j.cfg ≡ h'.cfg)
  unfolding judge
  judge-clear c = ground arith

  sample-clear :
      IsClear h s
      → ((take_sample h s).holding
          ≡ (h.holding && ltb (s.now - get_or h.clear_since s.now) h.cfg.release))
        × ((take_sample h s).clear_since ≡ (
            if h.holding
            then if ltb (s.now - get_or h.clear_since s.now) h.cfg.release
              then some (get_or h.clear_since s.now)
              else none
            else h.clear_since))
        × ((take_sample h s).cfg ≡ h.cfg)
  sample-clear c = rw take_sample_lem (
      ground (
        arith,
        judge-clear c,
        follow-keeps s.now (judge s.now s.stamp (findings h s) h'),
        heard-keeps s.suspended s.now h,
        heard-cfg s.suspended s.now h,
      ))

abbrev pub AllClear : Hold → List Sample → Type 0
AllClear h [] = Unit
AllClear h (s ∷ ss) = IsClear h s × AllClear (take_sample h s) ss

-- No sample comes a release period or more after the tick.
unfoldable pub all_within : ℕ → ℕ → List Sample → Bool
all_within first period [] = true
all_within first period (s ∷ ss) = ltb (s.now - first) period && all_within first period ss

-- A run of clear samples, the first of them at a tick that is known, or at its own.
release_from :
    (h : Hold) (ss : List Sample) (first : ℕ)
    → armed h.cfg ≡ true
    → (h.holding ≡ true → h.clear_since ≡ some first)
    → AllClear h ss
    → (take_all h ss).holding ≡ (h.holding && all_within first h.cfg.release ss)
unfolding take_all all_within
release_from h [] first a since clear = ground arith
release_from h (s ∷ ss) first a since clear =
    let next = sample-clear h s a clear.0 in
    let a' : armed (take_sample h s).cfg ≡ true = rw next.2 a in
    elim (Bool-cases h.holding) [
      | inl on ↦
          let known = since on in
          let held : (take_sample h s).holding ≡ ltb (s.now - first) h.cfg.release =
            next.0 ∙ rw (on, known) refl in
          let since' : (take_sample h s).holding ≡ true
              → (take_sample h s).clear_since ≡ some first =
            λ e.
              next.1
              ∙ rw (on, known)
                  (let within : ltb (s.now - first) h.cfg.release ≡ true = sym held ∙ e in
                    rw within refl) in
          release_from (take_sample h s) ss first a' since' clear.1 ∙ rw (held, next.2, on) refl
      | inr off ↦
          let loose : (take_sample h s).holding ≡ false = next.0 ∙ rw off refl in
          release_from (take_sample h s) ss first a'
            (λ e. absurd (let over : false ≡ true = sym loose ∙ e in cc)) clear.1
          ∙ rw (loose, off) refl
    ]

-- In an armed engine that holds after a tripping sample, any run of samples in which every condition can
-- be read and none trips keeps the hold exactly while none of them comes the release period or more
-- after the first of them, whatever clear samples there were before the trip.
pub release_exact :
    (h : Hold) (t first : Sample) (ss : List Sample)
    → armed h.cfg ≡ true
    → Trips h t
    → (take_sample h t).holding ≡ true
    → AllClear (take_sample h t) (first ∷ ss)
    → (take_all (take_sample h t) (first ∷ ss)).holding
      ≡ all_within first.now h.cfg.release (first ∷ ss)
unfolding take_all all_within
release_exact h t first ss a trips on clear =
    let tripped = sample-Trips h t a trips in
    let h1 = take_sample h t in
    let a1 : armed h1.cfg ≡ true = rw tripped.2 a in
    let next = sample-clear h1 first a1 clear.0 in
    let held : (take_sample h1 first).holding ≡ ltb (first.now - first.now) h.cfg.release =
      next.0 ∙ rw (on, tripped.3, tripped.2) refl in
    let since' : (take_sample h1 first).holding ≡ true
        → (take_sample h1 first).clear_since ≡ some first.now =
      λ e.
        next.1
        ∙ rw (on, tripped.3, tripped.2)
            (let within : ltb (first.now - first.now) h.cfg.release ≡ true = sym held ∙ e in
              rw within refl) in
    let a2 : armed (take_sample h1 first).cfg ≡ true = rw next.2 a1 in
    release_from (take_sample h1 first) ss first.now a2 since' clear.1
    ∙ rw (held, next.2, tripped.2) refl

engage_from :
    (h : Hold) (ss : List Sample)
    → armed h.cfg ≡ true
    → h.holding ≡ leb h.cfg.trip_samples h.trip_count
    → AllTrip h ss
    → (take_all h ss).holding ≡ leb h.cfg.trip_samples (h.trip_count + length ss)
unfolding take_all
engage_from h [] a start trips = ground arith
engage_from h (s ∷ ss) a start trips =
    let next = sample-Trips h s a trips.0 in
    let a' : armed (take_sample h s).cfg ≡ true = rw next.2 a in
    let start' : (take_sample h s).holding
        ≡ leb (take_sample h s).cfg.trip_samples (take_sample h s).trip_count =
      ground (arith, next) in
    ground (arith, engage_from (take_sample h s) ss a' start' trips.1, next)

-- In an armed engine that holds nothing and has counted nothing, any run of tripping samples ends
-- in a hold exactly if it has at least `trip_samples` of them.
pub engage_exact :
    (h : Hold) (ss : List Sample)
    → armed h.cfg ≡ true
    → 0 < h.cfg.trip_samples
    → h.holding ≡ false
    → h.trip_count ≡ 0
    → AllTrip h ss
    → (take_all h ss).holding ≡ leb h.cfg.trip_samples (length ss)
engage_exact h ss a some_samples free zero' trips =
    ground (arith, engage_from h ss a (ground arith) trips)
