-- ===== src/Settings/Runtime.antt =====
-- What a file or JSON can change of a configuration while the program runs: `read_line`, the JSON
-- functions and `actualReadConfig` of src/SpeakermanConfig.cpp with `runtime` set.
use speakerman.Prelude.{ℕ, refl, Bool, true, false, ◌&&◌, List, [], ◌∷◌, if◌then◌else◌}
use speakerman.Config
use speakerman.Config.{SpeakermanConfig, Effect, returns, ◌>>=◌}
use speakerman.Settings.{Memory}
use speakerman.Settings.Variables.{Numerals}
use speakerman.Settings.Table.{readers}
use speakerman.Settings.Lines.{read_line, set_text, is_reload, set_boolean, set_null}
use speakerman.Settings.Files.{actual_read_config}
use speakerman.Settings.KeepLines.{readers-keep, text-keeps}
use speakerman.Settings.Safe.{fixed_part, HasFixed, readers-IsSafe, KeepsFixed}

-- `read_line` of a file at runtime.
abbrev pub read_runtime_line : Numerals → Memory → SpeakermanConfig → Effect SpeakermanConfig
read_runtime_line numerals line c = read_line numerals readers line true c >>= λ r. returns r.1

-- Whatever bytes a file holds, reading it at runtime leaves all settings that are fixed at runtime as
-- unset as they were, unless it reads over the end of the memory or of an array.
pub actual_read_config-KeepsFixed :
    (numerals : Numerals) (stream : List ℕ) (line : Memory)
    → KeepsFixed Config.unset_config
        (actual_read_config (read_runtime_line numerals) stream line Config.unset_config)
actual_read_config-KeepsFixed numerals stream line =
    let part = fixed_part Config.unset_config in
    readers-keep (HasFixed part) numerals true readers (readers-IsSafe part) stream line
      Config.unset_config refl

-- Whatever string or number JSON gives for whatever path, the settings that are fixed at runtime keep
-- their values, and the same holds of a Boolean and of null, unless the call reads over the end of the
-- memory or of an array.
pub json-KeepsFixed :
    (numerals : Numerals) (path text : Memory) (value : Bool) (c : SpeakermanConfig)
    → KeepsFixed c (set_text numerals readers path text c)
      × KeepsFixed c (set_boolean numerals readers path value c)
      × KeepsFixed c (set_null numerals readers path c)
unfolding set_boolean set_null
json-KeepsFixed numerals path text value c =
    (keep text, boolean (value && is_reload numerals readers path), keep (0 ∷ []))
  where
    keep : (t : Memory) → KeepsFixed c (set_text numerals readers path t c)
    keep t =
        let part = fixed_part c in
        text-keeps (HasFixed part) numerals readers (readers-IsSafe part) path t c refl

    boolean :
        (b : Bool)
        → KeepsFixed c (
            if b
            then returns (record c { time_stamp = 0 })
            else set_text numerals readers path ((if value then b'1' else b'0') ∷ 0 ∷ []) c)
    boolean true = refl
    boolean false = keep ((if value then b'1' else b'0') ∷ 0 ∷ [])
