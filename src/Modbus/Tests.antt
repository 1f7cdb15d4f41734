-- ===== src/Modbus/Tests.antt =====
-- The Modbus frames and transactions at concrete inputs.
use wqm.Prelude.{
  ℕ, zero, suc, ◌+◌, ◌*◌, ◌<◌, ◌≡◌, ◌≢◌, refl, true, false, Option, some, List, [], ◌∷◌, arith,
  length, xor_bits,
}
use wqm.Modbus.{
  Bytes, append_crc, check_crc, crc16, crc_from, crc_bits, crc_bit, build_read, pack_word,
  pack_words,
}
use wqm.Modbus.Errors.{corrupted_refused}
use wqm.Modbus.Bus.{timed_out, replied, judge, transact, transact_from, read_registers, attempt}
use wqm.Modbus.Trip.{IsLost}
use wqm.Modbus.Reads.{IsAnswer, transact-IsAnswer, answer_frame, read-answer}

-- A request for register 0 of sensor 1, with its CRC.
abbrev request : Bytes
request = 1 ∷ 3 ∷ 0 ∷ 0 ∷ 0 ∷ 1 ∷ 132 ∷ 10 ∷ []

request-passes : check_crc request ≡ true
unfolding check_crc crc16 crc_from crc_bits crc_bit xor_bits
request-passes = refl

three_is_not_four : ◌≢◌ {A = ℕ} 3 4
three_is_not_four = λ e. omega arith

corrupted_refused_example : check_crc (1 ∷ 4 ∷ 0 ∷ 0 ∷ 0 ∷ 1 ∷ 132 ∷ 10 ∷ []) ≡ false
corrupted_refused_example =
    corrupted_refused (1 ∷ []) (0 ∷ 0 ∷ 0 ∷ 1 ∷ 132 ∷ 10 ∷ []) 3 4 (omega arith) (omega arith)
      three_is_not_four request-passes

abbrev regs : List ℕ
regs = 7 ∷ 300 ∷ []

-- A sensor that stays silent once, and then answers.
abbrev line : Bytes → ℕ → Option Bytes
line question zero = some []
line question (suc i) = some (answer_frame 1 regs)

silent_once :
    (k : ℕ) → k < 1 → IsLost (attempt line (build_read 1 0 (length regs)) (5 + 2 * length regs) k)
unfolding IsLost judge
silent_once zero h = (timed_out, refl, refl)
silent_once (suc k) h = absurd (omega arith)

read-answer_example : read_registers line 2 1 0 (length regs) ≡ replied regs
read-answer_example =
    read-answer line 2 1 0 1 regs (omega arith, (omega arith, tt)) (omega arith) silent_once refl

answered : (transact line 2 request 9).reply ≡ replied (answer_frame 1 regs)
unfolding transact transact_from judge answer_frame append_crc check_crc crc16 crc_from crc_bits
    crc_bit xor_bits pack_words pack_word
answered = refl

transact-IsAnswer_example : IsAnswer line 2 request 9 (answer_frame 1 regs)
transact-IsAnswer_example = transact-IsAnswer line 2 request 9 (answer_frame 1 regs) answered
