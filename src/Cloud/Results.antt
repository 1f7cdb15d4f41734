-- ===== src/Cloud/Results.antt =====
-- `_deliver_device_result` and `_retry_unposted_device_results` of src/app/workers.py: the results of
-- queued commands that could not be posted, by the command's id, the oldest first.
use wqm.Prelude.{
  ℕ, zero, suc, ◌-◌, ◌≤◌, ◌≡◌, ◌⊎◌, inl, inr, refl, ◌∙◌, Bool, true, false, Option, none, some,
  List, [], ◌∷◌, String, length, drop, arith, leb, if◌then◌else◌, Bool-cases, All,
}
use wqm.Prelude.Texts.{str_eq, find, put_name, find-put_name, str_eq_refl}
use wqm.Cloud.Request.{Posted, recorded, retry, lost}

abbrev pub handled_commands_max : ℕ
handled_commands_max = 64

module _ {ℓ} {R : Type ℓ} where
  unfoldable pub pop_name : String → List (String × R) → List (String × R)
  pop_name k [] = []
  pop_name k ((j, r) ∷ d) = let rest = pop_name k d in if str_eq j k then d else (j, r) ∷ rest

  abbrev pub is_kept : Option R → Bool
  is_kept none = false
  is_kept (some r) = true

  -- `while len(d) >= 64: d.popitem(last=False)`
  unfoldable pub make_room : List (String × R) → List (String × R)
  make_room d =
      if leb handled_commands_max (length d)
      then drop (suc (length d) - handled_commands_max) d
      else d

  unfoldable pub keep_result : String → R → List (String × R) → List (String × R)
  keep_result id r d = if is_kept (find id d) then put_name id r d else put_name id r (make_room d)

  -- What the server makes of a post of a result decides whether it is kept.
  unfoldable pub after_post : Posted → String → R → List (String × R) → List (String × R)
  after_post retry id r d = keep_result id r d
  after_post _ id r d = pop_name id d

  -- A command without an id is not answered.
  unfoldable pub deliver_device_result :
      (String → R → Posted) → String → R → List (String × R) → List (String × R)
  deliver_device_result post id r d = if str_eq id "" then d else after_post (post id r) id r d

  unfoldable pub retry_each :
      (String → R → Posted) → List (String × R) → List (String × R) → List (String × R)
  retry_each post [] d = d
  retry_each post ((id, r) ∷ items) d = retry_each post items (deliver_device_result post id r d)

  unfoldable pub retry_unposted_device_results :
      (String → R → Posted) → List (String × R) → List (String × R)
  retry_unposted_device_results post d = retry_each post d d

  length-put_name :
      (k : String) (r : R) (d : List (String × R))
      → length (put_name k r d) ≤ (if is_kept (find k d) then length d else suc (length d))
  unfolding put_name find
  length-put_name k r [] = omega arith
  length-put_name k r ((j, s) ∷ d) = elim (Bool-cases (str_eq j k)) [
    | inl e ↦ rw e (omega arith)
    | inr e ↦ rw e (ground (arith, length-put_name k r d))
  ]

  length-drop : (n : ℕ) (d : List (String × R)) → length (drop n d) ≤ length d - n
  length-drop zero d = omega arith
  length-drop (suc n) [] = omega arith
  length-drop (suc n) (x ∷ d) = omega (arith, length-drop n d)

  make_room-bound :
      (d : List (String × R))
      → length d ≤ handled_commands_max
      → suc (length (make_room d)) ≤ handled_commands_max
  unfolding make_room
  make_room-bound d h = ground (arith, length-drop (suc (length d) - handled_commands_max) d)

  length-pop_name : (k : String) (d : List (String × R)) → length (pop_name k d) ≤ length d
  unfolding pop_name
  length-pop_name k [] = omega arith
  length-pop_name k ((j, s) ∷ d) = elim (Bool-cases (str_eq j k)) [
    | inl e ↦ rw e (omega arith)
    | inr e ↦ rw e (omega (arith, length-pop_name k d))
  ]

  keep_result-bound :
      (id : String) (r : R) (d : List (String × R))
      → length d ≤ handled_commands_max
      → length (keep_result id r d) ≤ handled_commands_max
  unfolding keep_result
  keep_result-bound id r d h =
      ground
        (arith, length-put_name id r d, length-put_name id r (make_room d), make_room-bound d h)

  find-put : (id : String) (r : R) (d : List (String × R)) → find id (put_name id r d) ≡ some r
  find-put id r d = find-put_name id id r d ∙ rw (str_eq_refl id) refl

  -- A result whose post failed is the one that is kept for its command, with at most 64 in all.
  pub unposted_kept :
      (post : String → R → Posted) (id : String) (r : R) (d : List (String × R))
      → length d ≤ handled_commands_max
      → str_eq id "" ≡ false
      → post id r ≡ retry
      → (find id (deliver_device_result post id r d) ≡ some r)
        × (length (deliver_device_result post id r d) ≤ handled_commands_max)
  unfolding deliver_device_result after_post keep_result
  unposted_kept post id r d h named failed =
      rw (named, failed)
        (elim (Bool-cases (is_kept (find id d))) [
          | inl e ↦ rw e (find-put id r d, ground (arith, e, length-put_name id r d, h))
          | inr e ↦ rw e (
            find-put id r (make_room d),
            ground (arith, make_room-bound d h, length-put_name id r (make_room d)),
          )
        ])

  -- The server takes the result, or says that it has no such command.
  unfoldable pub Taken : (String → R → Posted) → String × R → Type 0
  Taken post (id, r) = (str_eq id "" ≡ false) × ((post id r ≡ recorded) ⊎ (post id r ≡ lost))

  -- Once the server answers each result that is kept, one pass leaves none.
  pub unposted_emptied :
      (post : String → R → Posted) (d : List (String × R))
      → All (Taken post) d
      → retry_unposted_device_results post d ≡ []
  unfolding retry_unposted_device_results retry_each deliver_device_result after_post pop_name Taken
  unposted_emptied post [] h = refl
  unposted_emptied post ((id, r) ∷ d) ((named, inl e), h) =
      rw (named, e, str_eq_refl id) (unposted_emptied post d h)
  unposted_emptied post ((id, r) ∷ d) ((named, inr e), h) =
      rw (named, e, str_eq_refl id) (unposted_emptied post d h)
