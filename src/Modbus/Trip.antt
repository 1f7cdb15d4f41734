-- ===== src/Modbus/Trip.antt =====
-- What the transactions of src/sensors/modbus.py return, and what it takes to get an answer.
use mathlib.Core.Path.{subst}
use wqm.Prelude.{
  ℕ, zero, suc, ◌+◌, ◌-◌, ◌≤◌, ◌<◌, ◌≡◌, ◌⊎◌, inl, inr, refl, sym, ap, ◌∙◌, true, false, Option,
  arith, length, Bool-cases,
}
use wqm.Modbus.{Bytes, check_crc}
use wqm.Modbus.Bus.{
  Fault, Reply, replied, failed, judge, is_retried, Exchange, attempt, transact_from,
}

-- An attempt that failed, but that is made again.
unfoldable pub IsLost : Reply Bytes → Type 0
IsLost a = (fault : Fault) × (a ≡ failed fault) × (is_retried fault ≡ true)

-- A response that the checks of an attempt let through.
pub record Checked (response_len : ℕ) (response : Bytes) : Type 0 where
  pub full : response_len ≤ length response
  pub sound : check_crc response ≡ true

pub judge-Checked :
    (response_len : ℕ) (response r : Bytes)
    → judge response_len response ≡ replied r
    → (response ≡ r) × Checked response_len r
unfolding judge
judge-Checked response_len response r h = ground arith

attempt-cases :
    (a : Reply Bytes)
    → ((response : Bytes) × (a ≡ replied response))
      ⊎ ((fault : Fault) × (a ≡ failed fault)
          × ((is_retried fault ≡ true) ⊎ (is_retried fault ≡ false)))
attempt-cases (replied response) = inl (response, refl)
attempt-cases (failed fault) = inr (fault, refl, Bool-cases (is_retried fault))

not_failed : (response : Bytes) (fault : Fault) → failed fault ≡ replied response → ⊥
not_failed response fault h = cc

same_reply : (r response : Bytes) → replied r ≡ replied response → r ≡ response
same_reply r response h = cc

module _ (line : Bytes → ℕ → Option Bytes) (request : Bytes) (response_len : ℕ) where
  -- The attempts before attempt `j` were lost, and it brings the response.
  pub record Served (i : ℕ) (j : ℕ) (response : Bytes) : Type 0 where
    pub lost : (k : ℕ) → k < j → IsLost (attempt line request response_len (i + k))
    pub brings : attempt line request response_len (i + j) ≡ replied response

  served_now :
      (n i : ℕ) (last : Fault) (response : Bytes)
      → attempt line request response_len i ≡ replied response
      → transact_from line request response_len (suc n) i last
        ≡ record { reply = replied response; written = 1 }
  unfolding transact_from
  served_now n i last response e = rw (e, transact_from) refl

  again :
      (n i : ℕ) (last fault : Fault)
      → attempt line request response_len i ≡ failed fault
      → is_retried fault ≡ true
      → let rest = transact_from line request response_len n (suc i) fault in
        transact_from line request response_len (suc n) i last
        ≡ record { reply = rest.reply; written = suc rest.written }
  unfolding transact_from
  again n i last fault e retried = rw (e, retried, transact_from) refl

  given_up :
      (n i : ℕ) (last fault : Fault)
      → attempt line request response_len i ≡ failed fault
      → is_retried fault ≡ false
      → transact_from line request response_len (suc n) i last
        ≡ record { reply = failed fault; written = 1 }
  unfolding transact_from
  given_up n i last fault e retried = rw (e, retried, transact_from) refl

  at :
      (i j : ℕ) (a : Reply Bytes)
      → i ≡ j
      → attempt line request response_len i ≡ a
      → attempt line request response_len j ≡ a
  at i j a e h = subst (λ k. attempt line request response_len k ≡ a) e h

  later-Served :
      (i j : ℕ) (response : Bytes) → Served i (suc j) response → Served (suc i) j response
  later-Served i j response s = record {
    lost = λ k h.
        subst (λ n. IsLost (attempt line request response_len n)) (omega arith)
          (s.lost (suc k) (omega arith));
    brings = at (i + suc j) (suc i + j) (replied response) (omega arith) s.brings;
  }

  pub transact_from-Served :
      (n i j : ℕ) (last : Fault) (response : Bytes)
      → j < n
      → Served i j response
      → transact_from line request response_len n i last
        ≡ record { reply = replied response; written = suc j }
  unfolding IsLost
  transact_from-Served zero i j last response h s = absurd (omega arith)
  transact_from-Served (suc n) i zero last response h s =
      served_now n i last response (at (i + 0) i (replied response) (omega arith) s.brings)
  transact_from-Served (suc n) i (suc j) last response h s =
      let first = s.lost 0 (omega arith) in
      again n i last first.0 (at (i + 0) i (failed first.0) (omega arith) first.1) first.2
      ∙ ap (λ (x : Exchange). record { reply = x.reply; written = suc x.written })
          (transact_from-Served n (suc i) j first.0 response (omega arith)
            (later-Served i j response s))

  -- What a transaction that answers says of its attempts.
  pub record Answered (n i : ℕ) (out : Exchange) (response : Bytes) : Type 0 where
    pub used : ℕ
    pub in_time : used < n
    pub count : out.written ≡ suc used
    pub served : Served i used response

  earlier-Served :
      (i j : ℕ) (response : Bytes)
      → IsLost (attempt line request response_len i)
      → Served (suc i) j response
      → Served i (suc j) response
  earlier-Served i j response first s = record {
    lost = λ k h. elim (which k) [
      | inl e ↦ subst (λ n. IsLost (attempt line request response_len n)) (omega arith) first
      | inr e ↦
          subst (λ n. IsLost (attempt line request response_len n)) (omega arith)
            (s.lost (k - 1) (omega arith))
    ];
    brings = at (suc i + j) (i + suc j) (replied response) (omega arith) s.brings;
  }
    where
      which : (k : ℕ) → (k ≡ 0) ⊎ (1 ≤ k)
      which k = omega arith

  first-Served :
      (i : ℕ) (response : Bytes)
      → attempt line request response_len i ≡ replied response
      → Served i 0 response
  first-Served i response e = record {
    lost = λ k h. absurd (omega arith);
    brings = at i (i + 0) (replied response) (omega arith) e;
  }

  pub transact_from-Answered :
      (n i : ℕ) (last : Fault) (response : Bytes)
      → (transact_from line request response_len n i last).reply ≡ replied response
      → Answered n i (transact_from line request response_len n i last) response
  unfolding transact_from IsLost
  transact_from-Answered zero i last response h = absurd (not_failed response last h)
  transact_from-Answered (suc n) i last response h =
      elim (attempt-cases (attempt line request response_len i)) [
        | inl (r, e) ↦
            let out = served_now n i last r e in
            record {
              used = 0;
              in_time = omega arith;
              count = ap (λ (x : Exchange). x.written) out;
              served = first-Served i response (e ∙ (sym (ap (λ (x : Exchange). x.reply) out) ∙ h));
            }
        | inr (fault, e, inl retried) ↦
            let out = again n i last fault e retried in
            let rest =
              transact_from-Answered n (suc i) fault response
                (sym (ap (λ (x : Exchange). x.reply) out) ∙ h) in
            record {
              used = suc rest.used;
              in_time = omega (arith, rest.in_time);
              count = ap (λ (x : Exchange). x.written) out ∙ ap suc rest.count;
              served = earlier-Served i rest.used response (fault, e, retried) rest.served;
            }
        | inr (fault, e, inr final) ↦ absurd (
            not_failed response fault
              (sym (ap (λ (x : Exchange). x.reply) (given_up n i last fault e final)) ∙ h))
      ]
