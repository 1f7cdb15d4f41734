-- ===== src/Relay/Steps/Dark.antt =====
-- `all_off` and `cleanup` keep the controller valid.
use wqm.Prelude.{
  ℕ, ◌≡◌, refl, Bool, true, false, ◌⊎◌, inl, List, [], ◌∷◌, arith, contains, returned, none,
  if◌then◌else◌, holds_under, holds_under_lem, not, ◌&&◌, ◌||◌, ◌-◌,
}
use wqm.Prelude.Dict.{get, get-remove}
use wqm.Relay.{
  Io, Relays, relay_pins, pin_of, check_channel, is_on, write, write_low, release_pins, all_off,
  cleanup, cancel_timer, test_bit,
}
use wqm.Relay.Steps.{World, IsValid}

pub release_pins-answers : (pins : List ℕ) (io : Io) → (release_pins pins io).answers ≡ io.answers
unfolding release_pins
release_pins-answers [] io = refl
release_pins-answers (p ∷ ps) io = ground (arith, release_pins-answers ps (write p false io).1)

-- Where no write raises, the loop of `all_off` is the loop of `cleanup`.
write_low-release_pins :
    (pins : List ℕ) (io : Io)
    → ((k : ℕ) → io.answers k ≡ true)
    → write_low pins io ≡ (true, release_pins pins io)
unfolding write_low release_pins
write_low-release_pins [] io h = refl
write_low-release_pins (p ∷ ps) io h = rw (h io.writes) (write_low-release_pins ps _ h)

release_pins-low :
    (q : ℕ) (pins : List ℕ) (io : Io)
    → ((k : ℕ) → io.answers k ≡ true)
    → (contains q pins ≡ true) ⊎ (io.level q ≡ false)
    → (release_pins pins io).level q ≡ false
unfolding release_pins contains
release_pins-low q [] io h low = ground arith
release_pins-low q (p ∷ ps) io h low =
    release_pins-low q ps (write p false io).1 (λ k. ground (arith, h k))
      (ground (arith, h io.writes))

abbrev channel_facts : ℕ → Bool
channel_facts d =
    not (check_channel d) || (contains (pin_of d) relay_pins && not (test_bit 0 (d - 1)))

channel_table : holds_under 5 channel_facts ≡ true
unfolding holds_under contains test_bit
channel_table = refl

channel_fact : (d : ℕ) → check_channel d ≡ true → channel_facts d ≡ true
channel_fact d k = holds_under_lem 5 channel_facts d channel_table (ground arith)

pins-contains : (d : ℕ) → check_channel d ≡ true → contains (pin_of d) relay_pins ≡ true
pins-contains d k = ground (arith, channel_fact d k)

pub zero-dark : (d : ℕ) → check_channel d ≡ true → test_bit 0 (d - 1) ≡ false
zero-dark d k = ground (arith, channel_fact d k)

is_on-dark : (d : ℕ) (r : Relays) → check_channel d ≡ true → is_on d (cleanup r) ≡ false
unfolding is_on cleanup
is_on-dark d r k = ground (arith, channel_fact d k)

timers-dark :
    (d : ℕ) (r : Relays)
    → get d (cleanup r).timers ≡ (if check_channel d then none else get d r.timers)
unfolding cleanup cancel_timer
timers-dark d r = simp get-remove (ground arith)

module _ (w : World) (h : IsValid w) where
  level-dark : (d : ℕ) → check_channel d ≡ true → (cleanup w.relays).io.level (pin_of d) ≡ false
  unfolding cleanup
  level-dark d k =
      release_pins-low (pin_of d) relay_pins w.relays.io h.works (inl (pins-contains d k))

  works-dark : (k : ℕ) → (cleanup w.relays).io.answers k ≡ true
  unfolding cleanup
  works-dark k = rw (release_pins-answers relay_pins w.relays.io) (h.works k)

  pub clean-IsValid : IsValid (record w { relays = cleanup w.relays })
  clean-IsValid = record {
    works = works-dark;
    small = unfold cleanup in omega arith;
    ceiling = unfold cleanup in h.ceiling;
    level = λ d k. ground (arith, level-dark d k, is_on-dark d w.relays k);
    pending = λ d t e. ground (arith, timers-dark d w.relays, h.pending d t);
    covered = λ d k free on. ground (arith, is_on-dark d w.relays k);
  }

  pub all_off-cleanup : all_off w.relays ≡ (returned tt, cleanup w.relays)
  unfolding all_off cleanup
  all_off-cleanup = rw (write_low-release_pins relay_pins w.relays.io h.works)

  pub off-IsValid : IsValid (record w { relays = (all_off w.relays).1 })
  off-IsValid = rw all_off-cleanup clean-IsValid
