-- ===== src/Config/Local.antt =====
-- ConfigManager of src/utils/config.py under any remote configuration.
use mathlib.Core.Path.{subst}
use wqm.Prelude.{
  ◌≡◌, ◌⊎◌, inl, inr, refl, sym, ap, ◌∙◌, Bool, true, false, ◌&&◌, Option, none, some, [], ◌∷◌,
  ◌++◌, String, Bool-cases, All, All-append, All-imp, arith,
}
use wqm.Prelude.Texts.{has_name, str_eq, str_eq_iff, find, put_name, find-put_name}
use wqm.Config.{
  Values, holds, validate_values, set_all, tolerate, tolerated, apply_file, Overlay,
  apply_remote_overlay, Manager, reload, overflows, base_overflows,
}
use wqm.Config.Schema.{SettingSpec, settings_schema}
use wqm.Config.Defaults.{Value, default_settings}
use wqm.Config.Valid.{
  Allowed, validate_values-Allowed, Valid, Harmless, Allowed-Harmless, value_of, set_all-Valid,
}

tolerate-Harmless :
    (o : Option SettingSpec) (key : String) (value : Value) (rest : Values)
    → find key settings_schema ≡ o
    → All Harmless rest
    → All Harmless (tolerate o key value rest)
unfolding tolerate Harmless
tolerate-Harmless (some s) key value rest e h = h
tolerate-Harmless none key value rest e h = elim (Bool-cases (str_eq key "retry_delays")) [
  | inr f ↦ rw f h
  | inl f ↦ rw f ((λ sp known. absurd (let no_spec : none ≡ some sp = sym e ∙ known in cc)), h)
]

tolerated-Harmless : (values : Values) → All Harmless (tolerated values)
unfolding tolerated
tolerated-Harmless [] = tt
tolerated-Harmless ((key, value) ∷ values) =
    tolerate-Harmless (find key settings_schema) key value (tolerated values) refl
      (tolerated-Harmless values)

abbrev judged_setting : Option SettingSpec → Value → Bool
judged_setting none v = true
judged_setting (some s) v = holds s.form v

all_hold : Values → Bool
all_hold [] = true
all_hold ((key, value) ∷ s) = judged_setting (find key settings_schema) value && all_hold s

all_hold-Valid : (s : Values) → all_hold s ≡ true → Valid s
unfolding all_hold Valid find
all_hold-Valid [] h k sp v known found = absurd cc
all_hold-Valid ((key, value) ∷ s) h k sp v known found = elim (Bool-cases (str_eq key k)) [
  | inl e ↦
      let same : some value ≡ some v = rw e at found in
      let judged : judged_setting (find key settings_schema) value ≡ true = ground (arith, h) in
      let spec = ap (λ i. find i settings_schema) ((str_eq_iff key k).0 e) ∙ known in
      subst (λ x. holds sp.form x ≡ true) (value_of value v same)
        (subst (λ o. judged_setting o value ≡ true) spec judged)
  | inr e ↦
      let later : all_hold s ≡ true = ground (arith, h) in
      all_hold-Valid s later k sp v known (rw e at found)
]

default_settings-Valid : Valid default_settings
unfolding all_hold find holds has_name
default_settings-Valid = all_hold-Valid default_settings refl

apply_file-Valid : (base : Option Values) (s : Values) → Valid s → Valid (apply_file base s)
unfolding apply_file
apply_file-Valid none s h = h
apply_file-Valid (some values) s h =
    set_all-Valid ((validate_values false values).0 ++ tolerated values) s
      (All-append Harmless (validate_values false values).0 (tolerated values)
        (All-imp (Allowed false) Harmless (validate_values false values).0 (Allowed-Harmless false)
          (validate_values-Allowed false values))
        (tolerated-Harmless values))
      h

overlay-Valid :
    (overlay : Option Overlay) (s : Values) → Valid s → Valid (apply_remote_overlay overlay s).1
unfolding apply_remote_overlay
overlay-Valid none s h = h
overlay-Valid (some o) s h = elim (Bool-cases (overflows true o.values)) [
  | inl e ↦ rw e h
  | inr e ↦ rw e (
      set_all-Valid (validate_values true o.values).0 s
        (All-imp (Allowed true) Harmless (validate_values true o.values).0 (Allowed-Harmless true)
          (validate_values-Allowed true o.values))
        h)
]

-- The cloud may set this key.
abbrev pub may_set : Option SettingSpec → Bool
may_set none = false
may_set (some s) = s.remote

set_all-elsewhere :
    (k : String) (values s : Values)
    → All (Allowed true) values
    → may_set (find k settings_schema) ≡ false
    → find k (set_all values s) ≡ find k s
unfolding set_all
set_all-elsewhere k [] s h own = refl
set_all-elsewhere k ((key, value) ∷ values) s (a, h) own =
    set_all-elsewhere k values (put_name key value s) h own
    ∙ (find-put_name k key value s ∙ elim (Bool-cases (str_eq key k)) [
      | inl e ↦ absurd (
          let spec = ap (λ i. find i settings_schema) ((str_eq_iff key k).0 e) in
          let clash : true ≡ false =
            sym (ap may_set (sym spec ∙ a.known) ∙ a.settable refl) ∙ own in
          cc)
      | inr e ↦ rw e refl
    ])

overlay-elsewhere :
    (overlay : Option Overlay) (s : Values) (k : String)
    → may_set (find k settings_schema) ≡ false
    → find k (apply_remote_overlay overlay s).1 ≡ find k s
unfolding apply_remote_overlay
overlay-elsewhere none s k own = refl
overlay-elsewhere (some o) s k own = elim (Bool-cases (overflows true o.values)) [
  | inl e ↦ rw e refl
  | inr e ↦ rw e (
      set_all-elsewhere k (validate_values true o.values).0 s
        (validate_values-Allowed true o.values) own)
]

-- Whatever the local file and the overlay hold, either the settings cannot be built, since the local
-- file has a whole number too large for `float` where a decimal is expected; or they are built, every
-- setting of the schema is one of its form and, unless it is NaN, within its bounds, and one that the
-- cloud may not set, as the credentials and the addresses of the cloud, is what the defaults and the
-- local file make it.
pub settings_stay_local :
    (m : Manager)
    → ((reload m ≡ none) × (base_overflows m.base ≡ true))
      ⊎ ((m' : Manager) × (reload m ≡ some m')
          × Valid m'.settings
          × ((k : String)
              → may_set (find k settings_schema) ≡ false
              → find k m'.settings ≡ find k (apply_file m.base default_settings)))
unfolding reload
settings_stay_local m = elim (Bool-cases (base_overflows m.base)) [
  | inl e ↦ inl (rw e refl, e)
  | inr e ↦
      let out = apply_remote_overlay m.overlay (apply_file m.base default_settings) in
      inr (
        record m { settings = out.1; remote_version = out.0 },
        rw e refl,
        overlay-Valid m.overlay (apply_file m.base default_settings)
            (apply_file-Valid m.base default_settings default_settings-Valid),
        λ k own. overlay-elsewhere m.overlay (apply_file m.base default_settings) k own,
      )
]
