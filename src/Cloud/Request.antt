-- ===== src/Cloud/Request.antt =====
-- `_request` and `post_command_result` of src/cloud/client.py. What becomes of each attempt is an
-- argument; a connection that fails or an answer that is no JSON is broken.
use wqm.Prelude.{
  ℕ, zero, suc, ◌+◌, ◌-◌, ◌≤◌, ◌<◌, ◌≡◌, ◌⊎◌, inl, inr, refl, Bool, true, false, not, ◌&&◌, ◌||◌,
  List, [], ◌∷◌, length, arith, leb, ltb, ◌==◌, min, if◌then◌else◌, Bool-cases, get_elem?, get_or,
  contains, from_next,
}

pub data Attempt : Type 0 where
  answered : ℕ → Attempt
  http_error : ℕ → Attempt
  broken : Attempt

-- What a request does: its status, which is 0 where no attempt got one, the attempts that it made, the
-- waits between them, and whether the key was given up.
pub record Requested : Type 0 where
  pub status : ℕ
  pub attempts : ℕ
  pub waits : List ℕ
  pub revoked : Bool

-- A status of the client's fault, which is not tried again.
abbrev pub is_client_error : ℕ → Bool
is_client_error code = leb 400 code && ltb code 500

unfoldable pub delay : List ℕ → ℕ → ℕ
delay delays attempt = get_or (get_elem? delays (min attempt (length delays - 1))) 0

abbrev pub decided : ℕ → Bool → Requested
decided status revoked = record { status = status; attempts = 1; waits = []; revoked = revoked }

-- One attempt more, after a wait if others come.
abbrev pub after : List ℕ → ℕ → ℕ → ℕ → Requested → Requested
after delays attempt zero last rest = record {
  status = last;
  attempts = 1;
  waits = [];
  revoked = false;
}
after delays attempt (suc more) last rest = record rest {
  attempts = suc rest.attempts;
  waits = delay delays attempt ∷ rest.waits;
}

-- The status that a request would end with after an attempt, if no other followed.
abbrev pub status_after : ℕ → Attempt → ℕ
status_after last (answered code) = code
status_after last (http_error code) = code
status_after last broken = last

abbrev pub gives_up : Bool → Attempt → Bool
gives_up has_key (http_error code) = (code == 401) && has_key
gives_up has_key _ = false

-- An attempt that leaves a request undecided.
abbrev pub is_transient : Attempt → Bool
is_transient (answered code) = false
is_transient (http_error code) = not (is_client_error code)
is_transient broken = true

-- The attempts from the given one on, of which `left` are left.
unfoldable pub request_from : Bool → List ℕ → (ℕ → Attempt) → ℕ → ℕ → ℕ → Requested
request_from has_key delays line zero attempt last = record {
  status = last;
  attempts = 0;
  waits = [];
  revoked = false;
}
request_from has_key delays line (suc left) attempt last =
    let status = status_after last (line attempt) in
    let rest = request_from has_key delays line left (suc attempt) status in
    if is_transient (line attempt)
    then after delays attempt left status rest
    else decided status (gives_up has_key (line attempt))

unfoldable pub request : Bool → Bool → List ℕ → ℕ → (ℕ → Attempt) → Requested
request is_http has_key delays max_retries line =
    if is_http
    then request_from has_key delays line max_retries 0 0
    else record { status = 0; attempts = 0; waits = []; revoked = false }

pub data Posted : Type 0 where
  recorded retry lost : Posted

abbrev result_retry_http : List ℕ
result_retry_http = 0 ∷ 401 ∷ 403 ∷ 408 ∷ 429 ∷ []

unfoldable pub outcome_of : ℕ → Posted
outcome_of http =
    if http == 200 || http == 409
    then recorded
    else if leb 500 http || contains http result_retry_http
    then retry
    else if is_client_error http
    then lost
    else retry

-- The attempts of a request from the given one on: they are at most those that are left, with a wait
-- between each two; all but the last are transient, and the last too where none is left.
pub record IsTried (line : ℕ → Attempt) (left attempt : ℕ) (r : Requested) : Type 0 where
  pub bounded : r.attempts ≤ left
  pub tries : min left 1 ≤ r.attempts
  pub spaced : length r.waits ≡ r.attempts - 1
  pub transient :
      (k : ℕ) → attempt ≤ k → suc k < attempt + r.attempts → is_transient (line k) ≡ true
  pub ends :
      (r.attempts ≡ left)
      ⊎ ((k : ℕ) × (suc k ≡ attempt + r.attempts) × (is_transient (line k) ≡ false))

module _ (has_key : Bool) (delays : List ℕ) (line : ℕ → Attempt) where
  decided-IsTried :
      (left attempt status : ℕ) (revoked : Bool)
      → is_transient (line attempt) ≡ false
      → IsTried line (suc left) attempt (decided status revoked)
  decided-IsTried left attempt status revoked h = record {
    bounded = omega arith;
    tries = omega arith;
    spaced = omega arith;
    transient = λ k low high. absurd (omega (arith, low, high));
    ends = inr (attempt, omega arith, h);
  }

  after-IsTried :
      (left attempt status : ℕ) (rest : Requested)
      → is_transient (line attempt) ≡ true
      → IsTried line left (suc attempt) rest
      → IsTried line (suc left) attempt (after delays attempt left status rest)
  after-IsTried zero attempt status rest h t = record {
    bounded = omega arith;
    tries = omega arith;
    spaced = omega arith;
    transient = λ k low high. absurd (omega (arith, low, high));
    ends = inl refl;
  }
  after-IsTried (suc more) attempt status rest h t = record {
    bounded = omega (arith, t.bounded);
    tries = omega arith;
    spaced = omega (arith, t.spaced, t.tries);
    transient = λ k low high.
        from_next (λ k. suc k < attempt + suc rest.attempts → is_transient (line k) ≡ true) attempt
          k (λ within. h) (λ above within. t.transient k above (omega (arith, within))) low high;
    ends = elim t.ends [
      | inl e ↦ inl (omega (arith, e))
      | inr (k, e, f) ↦ inr (k, omega (arith, e), f)
    ];
  }

  request_from-IsTried :
      (left attempt last : ℕ)
      → IsTried line left attempt (request_from has_key delays line left attempt last)
  unfolding request_from
  request_from-IsTried zero attempt last = record {
    bounded = omega arith;
    tries = omega arith;
    spaced = omega arith;
    transient = λ k low high. absurd (omega (arith, low, high));
    ends = inl refl;
  }
  request_from-IsTried (suc left) attempt last = elim (Bool-cases (is_transient (line attempt))) [
    | inl e ↦ rw e (
        after-IsTried left attempt _ _ e
          (request_from-IsTried left (suc attempt) (status_after last (line attempt))))
    | inr e ↦ rw e (decided-IsTried left attempt _ _ e)
  ]

-- A request makes at most as many attempts as it may, and one at least, with a wait between each two;
-- it goes on after an attempt exactly where that got no answer, or an error that is not the client's,
-- until it may make no more. A URL that is not of HTTP is not asked at all.
pub request_tries :
    (has_key : Bool) (delays : List ℕ) (max_retries : ℕ) (line : ℕ → Attempt)
    → IsTried line max_retries 0 (request true has_key delays max_retries line)
      × ((request false has_key delays max_retries line).attempts ≡ 0)
unfolding request
request_tries has_key delays max_retries line =
    (request_from-IsTried has_key delays line max_retries 0 0, refl)
