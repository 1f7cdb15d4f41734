-- ===== src/Config/Valid.antt =====
-- Which settings src/utils/config.py accepts, from any file and any cloud.
use mathlib.Core.Path.{subst}
use wqm.Prelude.{
  ◌≡◌, inl, inr, refl, sym, ap, ◌∙◌, Bool, true, false, not, ◌&&◌, Option, none, some, List, [],
  ◌∷◌, String, if◌then◌else◌, Bool-cases, All, arith,
}
use wqm.Prelude.Int.{pos, ◌*ℤ◌}
use wqm.Prelude.Texts.{str_eq, str_eq_iff, find, put_name, find-put_name}
use wqm.Config.{
  Error, Values, check_value, holds, in_range, fits, is_choice, judge_value, judge_key,
  validate_values, set_all,
}
use wqm.Config.Schema.{Form, flags, wholes, decimals, texts, SettingSpec, settings_schema}
use wqm.Config.Defaults.{Value, flag, whole, decimal, nan, text, opaque}

accepted_if :
    (b : Bool) (v w : Value) (f : Form)
    → (b ≡ true → holds f v ≡ true)
    → (if b then some v else none) ≡ some w
    → holds f w ≡ true
accepted_if true v w f h e =
    subst (λ x. holds f x ≡ true) (ap (λ o. elim o [ none ↦ v | some x ↦ x ]) e) (h refl)
accepted_if false v w f h e = absurd cc

-- What is accepted is a setting of the form.
pub holds-check_value : (f : Form) (v w : Value) → check_value f v ≡ some w → holds f w ≡ true
unfolding check_value holds
holds-check_value flags (flag b) w e = accepted_if true (flag b) w flags (λ h. refl) e
holds-check_value (wholes low high) (whole n) w e =
    accepted_if (in_range low high n) (whole n) w (wholes low high) (λ h. h) e
holds-check_value (decimals low high) (whole n) w e =
    accepted_if (in_range low high (n *ℤ pos 10000)) (decimal (n *ℤ pos 10000)) w
      (decimals low high) (λ h. h) e
holds-check_value (decimals low high) (decimal v) w e =
    accepted_if (in_range low high v) (decimal v) w (decimals low high) (λ h. h) e
holds-check_value (decimals low high) nan w e =
    accepted_if true nan w (decimals low high) (λ h. refl) e
holds-check_value (texts size choices) (text s) w e =
    accepted_if (fits size s && is_choice choices s) (text s) w (texts size choices) (λ h. h) e
holds-check_value flags (whole n) w e = absurd cc
holds-check_value flags (decimal n) w e = absurd cc
holds-check_value flags (text n) w e = absurd cc
holds-check_value flags opaque w e = absurd cc
holds-check_value flags nan w e = absurd cc
holds-check_value (wholes low high) (flag n) w e = absurd cc
holds-check_value (wholes low high) (decimal n) w e = absurd cc
holds-check_value (wholes low high) (text n) w e = absurd cc
holds-check_value (wholes low high) opaque w e = absurd cc
holds-check_value (wholes low high) nan w e = absurd cc
holds-check_value (decimals low high) (flag n) w e = absurd cc
holds-check_value (decimals low high) (text n) w e = absurd cc
holds-check_value (decimals low high) opaque w e = absurd cc
holds-check_value (texts size choices) (flag n) w e = absurd cc
holds-check_value (texts size choices) (whole n) w e = absurd cc
holds-check_value (texts size choices) (decimal n) w e = absurd cc
holds-check_value (texts size choices) opaque w e = absurd cc
holds-check_value (texts size choices) nan w e = absurd cc

-- A key and a value that the schema allows, and from the cloud only a key that it may set.
pub record Allowed (remote : Bool) (entry : String × Value) : Type 0 where
  pub spec : SettingSpec
  pub known : find entry.0 settings_schema ≡ some spec
  pub fitting : holds spec.form entry.1 ≡ true
  pub settable : remote ≡ true → spec.remote ≡ true

judge_value-Allowed :
    (remote : Bool) (key : String) (s : SettingSpec) (value : Value) (o : Option Value)
    → (rest : Values × List Error) → find key settings_schema ≡ some s
    → (remote ≡ true → s.remote ≡ true)
    → check_value s.form value ≡ o
    → All (Allowed remote) rest.0
    → All (Allowed remote) (judge_value key o rest).0
unfolding judge_value
judge_value-Allowed remote key s value none rest known settable e h = h
judge_value-Allowed remote key s value (some w) rest known settable e h = (
  record {
    spec = s;
    known = known;
    fitting = holds-check_value s.form value w e;
    settable = settable;
  },
  h,
)

judge_key-Allowed :
    (remote : Bool) (key : String) (value : Value) (o : Option SettingSpec)
    → (rest : Values × List Error) → find key settings_schema ≡ o
    → All (Allowed remote) rest.0
    → All (Allowed remote) (judge_key remote key value o rest).0
unfolding judge_key
judge_key-Allowed remote key value none rest known h = h
judge_key-Allowed remote key value (some s) rest known h =
    elim (Bool-cases (remote && not s.remote)) [
      | inl e ↦ rw e h
      | inr e ↦ rw e (
          judge_value-Allowed remote key s value (check_value s.form value) rest known
            (λ r. ground (arith, e, r)) refl h)
    ]

pub validate_values-Allowed :
    (remote : Bool) (values : Values) → All (Allowed remote) (validate_values remote values).0
unfolding validate_values
validate_values-Allowed remote [] = tt
validate_values-Allowed remote ((key, value) ∷ values) =
    judge_key-Allowed remote key value (find key settings_schema) (validate_values remote values)
      refl (validate_values-Allowed remote values)

-- Every setting of the schema is one of its form.
unfoldable pub Valid : Values → Type 0
Valid s =
    (key : String) (sp : SettingSpec) (v : Value)
    → find key settings_schema ≡ some sp
    → find key s ≡ some v
    → holds sp.form v ≡ true

-- A key of the schema is set to a value of its form; another key is not of the schema.
unfoldable pub Harmless : String × Value → Type 0
Harmless entry =
    (sp : SettingSpec) → find entry.0 settings_schema ≡ some sp → holds sp.form entry.1 ≡ true

pub spec_of : (a b : SettingSpec) → some a ≡ some b → a ≡ b
spec_of a b e = ap (λ o. elim o [ none ↦ a | some x ↦ x ]) e

pub value_of : (a b : Value) → some a ≡ some b → a ≡ b
value_of a b e = ap (λ o. elim o [ none ↦ a | some x ↦ x ]) e

pub Allowed-Harmless :
    (remote : Bool) (entry : String × Value) → Allowed remote entry → Harmless entry
unfolding Harmless
Allowed-Harmless remote entry a sp known =
    subst (λ (x : SettingSpec). holds x.form entry.1 ≡ true)
      (spec_of a.spec sp (sym a.known ∙ known)) a.fitting

put_name-Valid :
    (key : String) (value : Value) (s : Values)
    → Harmless (key, value)
    → Valid s
    → Valid (put_name key value s)
unfolding Valid Harmless
put_name-Valid key value s h valid k sp v known found =
    let here : (if str_eq key k then some value else find k s) ≡ some v =
      sym (find-put_name k key value s) ∙ found in
    elim (Bool-cases (str_eq key k)) [
      | inl e ↦
          let same : some value ≡ some v = rw e at here in
          subst (λ x. holds sp.form x ≡ true) (value_of value v same)
            (h sp (ap (λ i. find i settings_schema) ((str_eq_iff key k).0 e) ∙ known))
      | inr e ↦ valid k sp v known (rw e at here)
    ]

pub set_all-Valid : (values s : Values) → All Harmless values → Valid s → Valid (set_all values s)
unfolding set_all
set_all-Valid [] s h valid = valid
set_all-Valid ((key, value) ∷ values) s h valid =
    set_all-Valid values (put_name key value s) h.1 (put_name-Valid key value s h.0 valid)
