-- ===== src/Config/Tests.antt =====
-- The settings at concrete inputs: a cloud that tries to move the unit to another address.
use wqm.Prelude.{◌≡◌, ◌⊎◌, true, false, none, some, [], ◌∷◌, String}
use wqm.Prelude.Int.{pos}
use wqm.Prelude.Texts.{find}
use wqm.Config.{Values, Manager, returned, base_overflows, reload, apply_remote_config, apply_file}
use wqm.Config.Schema.{settings_schema}
use wqm.Config.Defaults.{whole, nan, text, default_settings}
use wqm.Config.Valid.{Valid}
use wqm.Config.Local.{may_set, settings_stay_local}
use wqm.Config.Whole.{Refuses, KeepsAll, remote_all_or_nothing}

abbrev local : Values
local = ("api_key", text "k1") ∷ ("sensor_read_s", whole (pos 30)) ∷ []

abbrev hostile : Values
hostile = ("cloud_api_base", text "https://elsewhere") ∷ ("sensor_read_s", whole (pos 1)) ∷ []

abbrev manager : Manager
manager = record {
  base = some local;
  overlay = some (record { version = some 3; values = hostile });
  settings = default_settings;
  remote_version = none;
}

settings_stay_local_example :
    ((reload manager ≡ none) × (base_overflows manager.base ≡ true))
    ⊎ ((m' : Manager) × (reload manager ≡ some m')
        × Valid m'.settings
        × ((k : String)
            → may_set (find k settings_schema) ≡ false
            → find k m'.settings ≡ find k (apply_file manager.base default_settings)))
settings_stay_local_example = settings_stay_local manager

-- A whole number for a decimal setting, and NaN for another.
abbrev wanted : Values
wanted = ("fan_on_temp_c", whole (pos 55)) ∷ ("spike_z_threshold", nan) ∷ []

remote_all_or_nothing_example :
    let out = apply_remote_config true 4 wanted manager in
    (Refuses out.0 × (out.1 ≡ manager))
    ⊎ (((out.0 ≡ returned true []) ⊎ (base_overflows manager.base ≡ true))
        × KeepsAll 4 wanted out.1)
remote_all_or_nothing_example = remote_all_or_nothing true 4 wanted manager
