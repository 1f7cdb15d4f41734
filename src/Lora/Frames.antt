-- ===== src/Lora/Frames.antt =====
-- The frame cryptography of src/radio/lorawan.py: the MIC of a data frame and the payload cipher.
-- CMAC and the AES block cipher are parameters, of a key and of bytes. A device address has four bytes.
use wqm.Prelude.{
  ℕ, suc, ◌+◌, ◌/◌, ◌%◌, ◌<◌, ◌≡◌, refl, [], ◌∷◌, ◌++◌, arith, length, take, All, xor_bits,
  xor_bits_twice,
}
use wqm.Lora.{Bytes}
use wqm.Lora.Commands.{byte}

-- `struct.pack("<H", n & 0xFFFF)` and `struct.pack("<I", n & 0xFFFFFFFF)`
unfoldable pub pack16 : ℕ → Bytes
pack16 n = n % 256 ∷ n / 256 % 256 ∷ []

unfoldable pub pack32 : ℕ → Bytes
pack32 n = n % 256 ∷ n / 256 % 256 ∷ n / 65536 % 256 ∷ n / 16777216 % 256 ∷ []

-- The block B0 of the MIC (0x49) and the blocks Ai of the cipher (0x01).
unfoldable pub frame_block : ℕ → ℕ → Bytes → ℕ → ℕ → Bytes
frame_block kind direction dev_addr fcnt final =
    kind ∷ 0 ∷ 0 ∷ 0 ∷ 0 ∷ direction % 256 ∷ (dev_addr ++ (pack32 fcnt ++ (0 ∷ final ∷ [])))

module _ (cmac : Bytes → Bytes → Bytes) where
  unfoldable pub frame_mic : Bytes → Bytes → ℕ → Bytes → ℕ → Bytes
  frame_mic nwk_skey dev_addr fcnt frame direction =
      take 4 (cmac nwk_skey (frame_block 73 direction dev_addr fcnt (length frame % 256) ++ frame))

  unfoldable pub uplink_mic : Bytes → Bytes → ℕ → Bytes → Bytes
  uplink_mic nwk_skey dev_addr fcnt frame = frame_mic nwk_skey dev_addr fcnt frame 0

  unfoldable pub downlink_mic : Bytes → Bytes → ℕ → Bytes → Bytes
  downlink_mic nwk_skey dev_addr fcnt frame = frame_mic nwk_skey dev_addr fcnt frame 1

module _ (aes : Bytes → Bytes → Bytes) where
  -- Byte `i` of the key stream.
  unfoldable pub key_stream : Bytes → Bytes → ℕ → ℕ → ℕ → ℕ
  key_stream key dev_addr fcnt direction i =
      byte (aes key (frame_block 1 direction dev_addr fcnt (i / 16 + 1))) (i % 16)

  -- The payload from byte `i` on.
  unfoldable pub encrypt_from : Bytes → Bytes → ℕ → ℕ → ℕ → Bytes → Bytes
  encrypt_from key dev_addr fcnt direction i [] = []
  encrypt_from key dev_addr fcnt direction i (b ∷ bytes) =
      xor_bits 8 b (key_stream key dev_addr fcnt direction i)
      ∷ encrypt_from key dev_addr fcnt direction (suc i) bytes

  -- `_encrypt_payload`
  unfoldable pub encrypt_payload : Bytes → Bytes → ℕ → Bytes → ℕ → Bytes
  encrypt_payload key dev_addr fcnt payload direction =
      encrypt_from key dev_addr fcnt direction 0 payload

  encrypt_from_twice :
      (key dev_addr : Bytes) (fcnt direction i : ℕ) (bytes : Bytes)
      → All (λ b. b < 256) bytes
      → encrypt_from key dev_addr fcnt direction i
          (encrypt_from key dev_addr fcnt direction i bytes)
        ≡ bytes
  unfolding encrypt_from
  encrypt_from_twice key dev_addr fcnt direction i [] h = refl
  encrypt_from_twice key dev_addr fcnt direction i (b ∷ bytes) h = grind (
    arith,
    h.0,
    xor_bits_twice 8 b (key_stream key dev_addr fcnt direction i),
    encrypt_from_twice key dev_addr fcnt direction (suc i) bytes h.1,
  )
