-- ===== src/Modbus/Reads.antt =====
-- The reads of src/sensors/modbus.py, from the request to the registers.
use mathlib.Core.Path.{subst}
use wqm.Prelude.{
  ℕ, suc, ◌+◌, ◌*◌, ◌/◌, ◌%◌, max, ◌≤◌, ◌<◌, ◌≡◌, refl, sym, ap, ◌∙◌, true, false, Option, none,
  some, List, [], ◌∷◌, ◌++◌, arith, ◌==◌, ==_refl, length, length-append, take, All,
}
use wqm.Modbus.{
  Bytes, byte, append_crc, check_crc, crc16, build_read, pack_word, pack_words, word, words_of,
}
use wqm.Modbus.Crc.{check-append, take-append}
use wqm.Modbus.Bus.{
  Fault, timed_out, replied, failed, judge, Exchange, attempt, of_read, transact, read_regs,
  read_registers, registers_of,
}
use wqm.Modbus.Trip.{
  IsLost, Checked, judge-Checked, Served, transact_from-Served, transact_from-Answered,
}

-- What a transaction that answers has done.
pub record IsAnswer (line : Bytes → ℕ → Option Bytes) (retries : ℕ) (request : Bytes)
    (response_len : ℕ) (response : Bytes) : Type 0 where
  pub used : ℕ
  pub in_time : used < max 1 retries
  pub written : (transact line retries request response_len).written ≡ suc used
  pub from_line : line request used ≡ some response
  pub full : response_len ≤ length response
  pub sound : check_crc response ≡ true
  pub lost : (k : ℕ) → k < used → IsLost (attempt line request response_len k)

not_raised : (response : Bytes) → failed Fault.port_lost ≡ replied response → ⊥
not_raised response h = cc

brought :
    (response_len : ℕ) (response : Bytes) (read : Option Bytes)
    → of_read response_len read ≡ replied response
    → (read ≡ some response) × Checked response_len response
brought response_len response none h = absurd (not_raised response h)
brought response_len response (some r) h =
    let c = judge-Checked response_len r response h in (ap some c.0, c.1)

-- A transaction that answers gives bytes that one of its attempts brought, as long as asked for, with a
-- CRC that holds, after attempts that all failed; and it wrote the request once for each attempt, at
-- most as often as there are retries.
pub transact-IsAnswer :
    (line : Bytes → ℕ → Option Bytes) (retries : ℕ) (request : Bytes) (response_len : ℕ)
    (response : Bytes)
    → (transact line retries request response_len).reply ≡ replied response
    → IsAnswer line retries request response_len response
unfolding transact
transact-IsAnswer line retries request response_len response h =
    let a =
      transact_from-Answered line request response_len (max 1 retries) 0 timed_out response h in
    let b = brought response_len response (line request (0 + a.used)) a.served.brings in
    record {
      used = a.used;
      in_time = a.in_time;
      written = a.count;
      from_line = subst (λ k. line request k ≡ some response) (omega arith) b.0;
      full = b.1.full;
      sound = b.1.sound;
      lost = λ k small.
          subst (λ n. IsLost (attempt line request response_len n)) (omega arith)
            (a.served.lost k small);
    }

-- The response of a sensor that has the registers.
unfoldable pub answer_frame : ℕ → List ℕ → Bytes
answer_frame address regs = append_crc (address ∷ 3 ∷ 2 * length regs ∷ pack_words regs)

words-pack :
    (regs : List ℕ)
    → All (λ r. r < 65536) regs
    → (length (pack_words regs) ≡ 2 * length regs) × (words_of (pack_words regs) ≡ regs)
unfolding pack_words pack_word words_of
words-pack [] h = (omega arith, refl)
words-pack (r ∷ regs) h =
    let ih = words-pack regs h.1 in
    let here : word (r % 65536 / 256) (r % 65536 % 256) ≡ r = omega (arith, h.0) in
    (omega (arith, ih.0), rw (here, ih.1) refl)

-- A response that has no fault passes the checks.
judge-good :
    (response_len : ℕ) (response : Bytes)
    → (byte response 1 / 128 % 2 == 1) ≡ false
    → response_len ≤ length response
    → check_crc response ≡ true
    → judge response_len response ≡ replied response
unfolding judge
judge-good response_len response normal full sound = ground arith

judge-answer :
    (address : ℕ) (regs : List ℕ)
    → length (pack_words regs) ≡ 2 * length regs
    → judge (5 + 2 * length regs) (answer_frame address regs) ≡ replied (answer_frame address regs)
unfolding answer_frame append_crc
judge-answer address regs e =
    let body = address ∷ 3 ∷ 2 * length regs ∷ pack_words regs in
    judge-good (5 + 2 * length regs) (answer_frame address regs) refl
      (omega (arith, e, length-append body (crc16 body % 256 ∷ crc16 body / 256 ∷ [])))
      (check-append body (omega arith))

registers-answer :
    (line : Bytes → ℕ → Option Bytes) (address : ℕ) (regs : List ℕ)
    → All (λ r. r < 65536) regs
    → length (pack_words regs) ≡ 2 * length regs
    → registers_of line (length regs) (replied (answer_frame address regs)) ≡ replied regs
unfolding answer_frame append_crc
registers-answer line address regs words e =
    let body = address ∷ 3 ∷ 2 * length regs ∷ pack_words regs in
    let crc = crc16 body % 256 ∷ crc16 body / 256 ∷ [] in
    let payload : take (2 * length regs) (pack_words regs ++ crc) ≡ pack_words regs =
      ap (λ n. take n (pack_words regs ++ crc)) (sym e) ∙ take-append (pack_words regs) crc in
    rw (==_refl (2 * length regs), payload, (words-pack regs words).1) refl

-- The registers are read, as the sensor has them, each of 16 bits, once its response comes whole, if
-- every attempt before it was lost to silence, to a short response or to a bad CRC, and those are fewer
-- than the retries.
pub read-answer :
    (line : Bytes → ℕ → Option Bytes) (retries address start j : ℕ) (regs : List ℕ)
    → All (λ r. r < 65536) regs
    → j < max 1 retries
    → ((k : ℕ)
        → k < j
        → IsLost (attempt line (build_read address start (length regs)) (5 + 2 * length regs) k))
    → line (build_read address start (length regs)) j ≡ some (answer_frame address regs)
    → read_registers line retries address start (length regs) ≡ replied regs
unfolding read_registers read_regs transact
read-answer line retries address start j regs words small lost answer =
    let size = (words-pack regs words).0 in
    let served : Served line (build_read address start (length regs)) (5 + 2 * length regs) 0 j
        (answer_frame address regs) =
      record {
        lost = λ k h.
            subst
              (λ n.
                IsLost
                  (attempt line (build_read address start (length regs)) (5 + 2 * length regs) n))
              (omega arith) (lost k h);
        brings =
            ap (of_read (5 + 2 * length regs))
              (ap (line (build_read address start (length regs))) (omega arith) ∙ answer)
            ∙ judge-answer address regs size;
      } in
    ap (λ (x : Exchange). registers_of line (length regs) x.reply)
      (transact_from-Served line (build_read address start (length regs)) (5 + 2 * length regs)
        (max 1 retries) 0 j timed_out (answer_frame address regs) small served)
    ∙ registers-answer line address regs words size
