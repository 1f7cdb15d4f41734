-- ===== src/Config/Whole.antt =====
-- `apply_remote_config` of src/utils/config.py: a configuration from the cloud as a whole.
use mathlib.Core.Path.{subst}
use wqm.Prelude.{
  ℕ, ◌≡◌, ◌⊎◌, inl, inr, refl, sym, ap, Bool, true, false, ◌&&◌, Option, none, some, List, [], ◌∷◌,
  String, if◌then◌else◌, Bool-cases,
}
use wqm.Prelude.Int.{ℤ, pos, ◌*ℤ◌}
use wqm.Prelude.Texts.{str_eq, str_eq_iff, find}
use wqm.Config.{
  Error, Values, check_value, holds, in_range, fits, is_choice, judge_value, judge_key,
  validate_values, overflows, base_overflows, persist_failed, Manager, reload, reloaded, Applied,
  returned, raised, persist, apply_remote_config,
}
use wqm.Config.Schema.{Form, flags, wholes, decimals, texts, SettingSpec, settings_schema}
use wqm.Config.Defaults.{Value, flag, whole, decimal, nan, text, opaque}
use wqm.Config.Valid.{holds-check_value, value_of}

-- The value as it was sent, or the same number as a decimal.
abbrev pub Means : Value → Value → Type 0
Means v w = (w ≡ v) ⊎ ((n : ℤ) × (v ≡ whole n) × (w ≡ decimal (n *ℤ pos 10000)))

if_some : (b : Bool) (v w : Value) → (if b then some v else none) ≡ some w → w ≡ v
if_some true v w e = sym (value_of v w e)
if_some false v w e = absurd cc

check_value-Means : (f : Form) (v w : Value) → check_value f v ≡ some w → Means v w
unfolding check_value
check_value-Means flags (flag b) w e = inl (sym (value_of _ w e))
check_value-Means (wholes low high) (whole n) w e = inl (if_some (in_range low high n) _ w e)
check_value-Means (decimals low high) (whole n) w e =
    inr (n, refl, if_some (in_range low high (n *ℤ pos 10000)) _ w e)
check_value-Means (decimals low high) (decimal v) w e = inl (if_some (in_range low high v) _ w e)
check_value-Means (decimals low high) nan w e = inl (sym (value_of _ w e))
check_value-Means (texts size choices) (text s) w e =
    inl (if_some (fits size s && is_choice choices s) _ w e)
check_value-Means flags (whole n) w e = absurd cc
check_value-Means flags (decimal n) w e = absurd cc
check_value-Means flags nan w e = absurd cc
check_value-Means flags (text n) w e = absurd cc
check_value-Means flags opaque w e = absurd cc
check_value-Means (wholes low high) (flag n) w e = absurd cc
check_value-Means (wholes low high) (decimal n) w e = absurd cc
check_value-Means (wholes low high) nan w e = absurd cc
check_value-Means (wholes low high) (text n) w e = absurd cc
check_value-Means (wholes low high) opaque w e = absurd cc
check_value-Means (decimals low high) (flag n) w e = absurd cc
check_value-Means (decimals low high) (text n) w e = absurd cc
check_value-Means (decimals low high) opaque w e = absurd cc
check_value-Means (texts size choices) (flag n) w e = absurd cc
check_value-Means (texts size choices) (whole n) w e = absurd cc
check_value-Means (texts size choices) (decimal n) w e = absurd cc
check_value-Means (texts size choices) nan w e = absurd cc
check_value-Means (texts size choices) opaque w e = absurd cc

-- A key that was sent with a value: it is one that the cloud may set, and what is kept for it is that
-- value, of the form of the setting.
pub record Taken (key : String) (v : Value) (kept : Option Value) : Type 0 where
  pub spec : SettingSpec
  pub known : find key settings_schema ≡ some spec
  pub settable : spec.remote ≡ true
  pub value : Value
  pub found : kept ≡ some value
  pub means : Means v value
  pub fitting : holds spec.form value ≡ true

no_errors : (e : Error) (es : List Error) → e ∷ es ≡ [] → ⊥
no_errors e es h = cc

-- The first key, with its value, and the others, where there is no error.
judge_value-clean :
    (key : String) (o : Option Value) (rest : Values × List Error)
    → (judge_value key o rest).1 ≡ []
    → ((w : Value) × (o ≡ some w)
        × ((judge_value key o rest).0 ≡ (key, w) ∷ rest.0)
        × (rest.1 ≡ []))
unfolding judge_value
judge_value-clean key none rest h = absurd (no_errors _ _ h)
judge_value-clean key (some w) rest h = (w, refl, refl, h)

judge_key-clean :
    (key : String) (v : Value) (o : Option SettingSpec) (rest : Values × List Error)
    → find key settings_schema ≡ o
    → (judge_key true key v o rest).1 ≡ []
    → ((w : Value) × Taken key v (some w)
        × ((judge_key true key v o rest).0 ≡ (key, w) ∷ rest.0)
        × (rest.1 ≡ []))
unfolding judge_key
judge_key-clean key v none rest known h = absurd (no_errors _ _ h)
judge_key-clean key v (some s) rest known h = elim (Bool-cases s.remote) [
  | inr e ↦ absurd (no_errors _ _ (rw e at h))
  | inl e ↦
      let (w, checked, kept, clean) =
        judge_value-clean key (check_value s.form v) rest (rw e at h) in
      (
        w,
        record {
          spec = s;
          known = known;
          settable = e;
          value = w;
          found = refl;
          means = check_value-Means s.form v w checked;
          fitting = holds-check_value s.form v w checked;
        },
        rw e kept,
        clean,
      )
]

-- Where nothing is wrong, every value that was sent is kept.
every_one :
    (values : Values) (k : String) (v : Value)
    → (validate_values true values).1 ≡ []
    → find k values ≡ some v
    → Taken k v (find k (validate_values true values).0)
unfolding validate_values find
every_one [] k v h sent = absurd cc
every_one ((key, value) ∷ values) k v h sent =
    let (w, taken, kept, clean) =
      judge_key-clean key value (find key settings_schema) (validate_values true values) refl h in
    elim (Bool-cases (str_eq key k)) [
      | inl e ↦
          let same = (str_eq_iff key k).0 e in
          let here : value ≡ v = value_of value v (rw e at sent) in
          rw (kept, e, ← same, ← here) taken
      | inr e ↦ rw (kept, e) (every_one values k v clean (rw e at sent))
    ]

-- Nothing else is kept.
no_other :
    (values : Values) (k : String)
    → (validate_values true values).1 ≡ []
    → find k values ≡ none
    → find k (validate_values true values).0 ≡ none
unfolding validate_values find
no_other [] k h unsent = refl
no_other ((key, value) ∷ values) k h unsent =
    let (w, taken, kept, clean) =
      judge_key-clean key value (find key settings_schema) (validate_values true values) refl h in
    elim (Bool-cases (str_eq key k)) [
      | inl e ↦ absurd (let clash : some value ≡ none = rw e at unsent in cc)
      | inr e ↦ rw (kept, e) (no_other values k clean (rw e at unsent))
    ]

-- What a call says that refuses the configuration.
abbrev pub Refuses : Applied → Type 0
Refuses a = (a ≡ raised) ⊎ ((es : List Error) × (a ≡ returned false es))

-- The overlay is exactly what was sent.
abbrev pub KeepsAll : ℕ → Values → Manager → Type 0
KeepsAll version values m =
    (kept : Values) × (m.overlay ≡ some (record { version = some version; values = kept }))
    × ((k : String) (v : Value) → find k values ≡ some v → Taken k v (find k kept))
    × ((k : String) → find k values ≡ none → find k kept ≡ none)

reload-overlay : (m m' : Manager) → reload m ≡ some m' → m'.overlay ≡ m.overlay
unfolding reload
reload-overlay m m' h = elim (Bool-cases (base_overflows m.base)) [
  | inl e ↦ absurd (let clash : none ≡ some m' = rw e at h in cc)
  | inr e ↦ sym (ap (λ o. elim o [ none ↦ m.overlay | some x ↦ x.overlay ]) (rw e at h))
]

reloaded-overlay :
    (m : Manager) (o : Option Manager) → reload m ≡ o → (reloaded m o).1.overlay ≡ m.overlay
reloaded-overlay m none h = refl
reloaded-overlay m (some m') h = reload-overlay m m' h

reloaded-answer :
    (m : Manager) (o : Option Manager)
    → reload m ≡ o
    → ((reloaded m o).0 ≡ returned true []) ⊎ (base_overflows m.base ≡ true)
unfolding reload
reloaded-answer m (some m') h = inl refl
reloaded-answer m none h = elim (Bool-cases (base_overflows m.base)) [
  | inl e ↦ inr e
  | inr e ↦ absurd (
      let clash : some m ≡ none = ap (λ o. elim o [ none ↦ none | some x ↦ some m ]) (rw e at h) in
      cc)
]

persisted :
    (writes : Bool) (version : ℕ) (values : Values) (m : Manager) (out : Values × List Error)
    → validate_values true values ≡ out
    → (Refuses (persist writes version out m).0 × ((persist writes version out m).1 ≡ m))
      ⊎ ((((persist writes version out m).0 ≡ returned true []) ⊎ (base_overflows m.base ≡ true))
          × KeepsAll version values (persist writes version out m).1)
unfolding persist
persisted writes version values m (accepted, e ∷ es) h = inl (inr (e ∷ es, refl), refl)
persisted false version values m (accepted, []) h = inl (inr (persist_failed ∷ [], refl), refl)
persisted true version values m (accepted, []) h =
    let m' : Manager = record m {
      overlay = some (record { version = some version; values = accepted });
    } in
    let same : (validate_values true values).0 ≡ accepted = ap (λ o. o.0) h in
    let clean : (validate_values true values).1 ≡ [] = ap (λ o. o.1) h in
    inr (
      reloaded-answer m' (reload m') refl,
      (
        accepted,
        reloaded-overlay m' (reload m') refl,
        λ k v sent. subst (λ d. Taken k v (find k d)) same (every_one values k v clean sent),
        λ k unsent. subst (λ d. find k d ≡ none) same (no_other values k clean unsent),
      ),
    )

-- A remote configuration is taken as a whole or not at all. Either the call refuses it or raises, and
-- nothing has changed; or the overlay has its version and exactly its keys, each of which the cloud may
-- set, with the value that was sent, where a decimal is expected as a decimal, which is of the form of
-- the setting. The call then succeeds, unless the local file makes the reload raise.
pub remote_all_or_nothing :
    (writes : Bool) (version : ℕ) (values : Values) (m : Manager)
    → let out = apply_remote_config writes version values m in
      (Refuses out.0 × (out.1 ≡ m))
      ⊎ (((out.0 ≡ returned true []) ⊎ (base_overflows m.base ≡ true))
          × KeepsAll version values out.1)
unfolding apply_remote_config
remote_all_or_nothing writes version values m = elim (Bool-cases (overflows true values)) [
  | inl e ↦ inl (rw e (inl refl), rw e refl)
  | inr e ↦ rw e (persisted writes version values m (validate_values true values) refl)
]
