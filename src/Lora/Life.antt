-- ===== src/Lora/Life.antt =====
-- The MAC of src/radio/lorawan.py over its whole life: joins, uplinks, downlinks, rejoins, reboots.
use wqm.Prelude.{
  ℕ, ◌+◌, Bool, true, false, not, Option, none, some, List, [], ◌∷◌, ltb, length, contains,
}
use wqm.Lora.{Bytes, Mac, init, forget_session}
use wqm.Lora.Sound.{IsSoundAt}
use wqm.Lora.Link.{
  body_of, Hook, Uplink, is_dead, max_payload, process_downlink, send_uplink, send_checked,
  transmit, after_tx, consume_counter, probe, count_uplink,
}
use wqm.Lora.Join.{
  Device, next_dev_nonce, process_join_accept, apply_accept, after_request, join, is_accept,
  app_nonce_of, accept_text,
}
use wqm.Lora.Params.{mac_params, apply_mac_params}
use wqm.Lora.Uplink.{downlink-IsSoundAt, if-Uplink}
use wqm.Lora.Ranges.{
  init-IsSoundAt, forget-IsSoundAt, settings-IsSoundAt, wide, cf_list-IsSoundAt, restored-IsSoundAt,
  count-IsSoundAt, probe-IsSoundAt, consume-IsSoundAt, if-pair,
}

-- What happens to the MAC.
pub data Event : Type 0 where
  joins : Device → ℕ → Bool → Option Bytes → Event
  sends : Hook → Bytes → ℕ → Bool → Bool → Option Bytes → Event
  receives : Bytes → Event
  forgets : Event
  reboots : ℕ → ℕ → Event

module _ (cmac aes : Bytes → Bytes → Bytes) where
  unfoldable pub happen : Event → Mac → Mac
  happen (joins device entropy sent accept) m = (join cmac aes device entropy sent accept m).mac
  happen (sends hook payload fport confirmed sent received) m =
      (send_uplink cmac aes hook payload fport confirmed sent received m).mac
  happen (receives frame) m = (process_downlink cmac aes frame m).1
  happen forgets m = forget_session m
  happen (reboots sub_band sf) m =
      apply_mac_params (mac_params m) (record (init sub_band sf) { session = m.session })

  unfoldable pub live : List Event → Mac → Mac
  live [] m = m
  live (e ∷ es) m = live es (happen e m)

  accept-IsSoundAt :
      (device : Device) (frame : Bytes) (m : Mac)
      → IsSoundAt 7 m
      → IsSoundAt 7 (process_join_accept cmac aes device frame m).1
  unfolding process_join_accept apply_accept
  accept-IsSoundAt device frame m h =
      let Sound : Mac → Type 0 = λ m'. IsSoundAt 7 m' in
      if-pair Sound (not (is_accept cmac aes device frame)) _ _ h (
        if-pair Sound
          (contains (app_nonce_of (body_of (accept_text cmac aes device frame)))
            m.recent_app_nonces)
          _ _ h (cf_list-IsSoundAt _ _ (settings-IsSoundAt _ _ h)))

  request-IsSoundAt :
      (device : Device) (sent : Bool) (accept : Option Bytes) (m : Mac)
      → IsSoundAt 7 m
      → IsSoundAt 7 (after_request cmac aes device sent accept m).1
  request-IsSoundAt device false accept m h = h
  request-IsSoundAt device true none m h = h
  request-IsSoundAt device true (some frame) m h = accept-IsSoundAt device frame m h

  join-IsSoundAt :
      (device : Device) (entropy : ℕ) (sent : Bool) (accept : Option Bytes) (m : Mac)
      → IsSoundAt 7 m
      → IsSoundAt 7 (join cmac aes device entropy sent accept m).mac
  unfolding join next_dev_nonce
  join-IsSoundAt device entropy sent accept m h = request-IsSoundAt device sent accept _ h

  tx-IsSoundAt :
      (sent : Bool) (received : Option Bytes) (m : Mac)
      → IsSoundAt 7 m
      → IsSoundAt 7 (after_tx cmac aes sent received m).1
  unfolding after_tx
  tx-IsSoundAt false received m h = h
  tx-IsSoundAt true none m h = h
  tx-IsSoundAt true (some frame) m h = downlink-IsSoundAt cmac aes 7 wide frame m h

  send-IsSoundAt :
      (hook : Hook) (payload : Bytes) (fport : ℕ) (confirmed sent : Bool) (received : Option Bytes)
      (m : Mac)
      → IsSoundAt 7 m
      → IsSoundAt 7 (send_uplink cmac aes hook payload fport confirmed sent received m).mac
  unfolding send_uplink send_checked transmit
  send-IsSoundAt hook payload fport confirmed sent received m h =
      let Sound : Uplink → Type 0 = λ u. IsSoundAt 7 u.mac in
      let m1 = probe (count_uplink m) in
      let h1 = probe-IsSoundAt (count_uplink m) (count-IsSoundAt m h) in
      if-Uplink Sound (not m.session.joined) _ _ h (
        if-Uplink Sound (is_dead (count_uplink m)) _ _
          (forget-IsSoundAt (count_uplink m) (count-IsSoundAt m h))
          (if-Uplink Sound (ltb (max_payload m1.sf) (length payload + length m1.pending_fopts)) _ _
            h1 (tx-IsSoundAt sent received (consume_counter m1) (consume-IsSoundAt m1 h1))))

  happen-IsSoundAt : (e : Event) (m : Mac) → IsSoundAt 7 m → IsSoundAt 7 (happen e m)
  unfolding happen mac_params
  happen-IsSoundAt (joins device entropy sent accept) m h =
      join-IsSoundAt device entropy sent accept m h
  happen-IsSoundAt (sends hook payload fport confirmed sent received) m h =
      send-IsSoundAt hook payload fport confirmed sent received m h
  happen-IsSoundAt (receives frame) m h = downlink-IsSoundAt cmac aes 7 wide frame m h
  happen-IsSoundAt forgets m h = forget-IsSoundAt m h
  happen-IsSoundAt (reboots sub_band sf) m h =
      restored-IsSoundAt _ _ h.4.0 h.4.1 (init-IsSoundAt sub_band sf)

  live_from-IsSoundAt : (es : List Event) (m : Mac) → IsSoundAt 7 m → IsSoundAt 7 (live es m)
  unfolding live
  live_from-IsSoundAt [] m h = h
  live_from-IsSoundAt (e ∷ es) m h = live_from-IsSoundAt es (happen e m) (happen-IsSoundAt e m h)

  -- From the start, after any joins, uplinks, downlinks, rejoins and reboots, whatever the network
  -- sends: the mask has 72 channels, one of the first 64 enabled, the spreading factor is one of SF7
  -- to SF10, the receive offset has three bits, the RX2 data rate and frequency and the delay are those
  -- of the band, and the answers fit in FOpts.
  pub live-IsSoundAt :
      (sub_band sf : ℕ) (es : List Event) → IsSoundAt 7 (live es (init sub_band sf))
  live-IsSoundAt sub_band sf es =
      live_from-IsSoundAt es (init sub_band sf) (init-IsSoundAt sub_band sf)
