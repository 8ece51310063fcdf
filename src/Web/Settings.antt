-- ===== src/Web/Settings.antt =====
-- moq-go/h3/settingsframe.go: settings and their frame. A number that is too large for a
-- variable-length integer panics, which is `none`; a loop that has not ended on its fuel is `none` too.
use moq_quic_bbrv3_go.Prelude.{
  ℕ, zero, suc, ◌+◌, ◌-◌, ◌%◌, ◌^◌, ◌==◌, if◌then◌else◌, List, [], ◌∷◌, ◌++◌, Option, none, some,
  wrap64,
}
use moq_quic_bbrv3_go.Varint.{either, Parsed, ok, err, check, read, append, len}
use moq_quic_bbrv3_go.Wire.Params.{◌>>=◌, read_full}

pub record Setting : Type 0 where
  pub key : ℕ
  pub value : ℕ

-- `Setting{}`
abbrev pub no_setting : Setting
no_setting = record { key = 0; value = 0 }

-- On an error the setting stays as it was.
unfoldable pub parse_setting : List ℕ → Parsed Setting
parse_setting r =
    check (read r) no_setting
      λ k r1. check (read r1) no_setting λ v r2. ok (record { key = k; value = v }) r2

unfoldable pub setting_bytes : Setting → Option (List ℕ)
setting_bytes s = do d ← append [] s.key; append d s.value

unfoldable pub setting_length : Setting → Option ℕ
setting_length s = do k ← len s.key; v ← len s.value; some (k + v)

-- `for dlength > 0`: the error of `setting.Parse` is not looked at, and the length goes down by what
-- the setting would take if it were written.
unfoldable pub settings_loop : ℕ → List ℕ → ℕ → List Setting → Option (List Setting)
settings_loop zero r d acc = if d == 0 then some acc else none
settings_loop (suc fuel) r d acc =
    let p = parse_setting r in
    let rest = (do
      n ← setting_length p.value
      settings_loop fuel p.rest ((d + 2 ^ 64 - n) % 2 ^ 64) (acc ++ p.value ∷ [])) in
    if d == 0 then some acc else rest

-- `SettingsFrame.Parse`, after the type
unfoldable pub parse_settings : ℕ → List ℕ → Option (Parsed (List Setting))
parse_settings fuel r =
    either (read r) (λ e r1. some (err [] e r1))
      λ n r1.
        either (read_full n r1) (λ e r2. some (err [] e r2))
          λ body r2. do ss ← settings_loop fuel body n []; some (ok ss r2)

-- The two loops of `GetBytes`
unfoldable pub settings_length : List Setting → Option ℕ
settings_length [] = some 0
settings_length (s ∷ ss) = do n ← setting_length s; m ← settings_length ss; some (wrap64 (n + m))

unfoldable pub append_settings : List ℕ → List Setting → Option (List ℕ)
append_settings d [] = some d
append_settings d (s ∷ ss) = do b ← setting_bytes s; append_settings (d ++ b) ss

abbrev pub frame_settings : ℕ
frame_settings = 0x04

unfoldable pub settings_bytes : List Setting → Option (List ℕ)
settings_bytes ss = do
  d ← append [] frame_settings
  n ← settings_length ss
  d1 ← append d n
  append_settings d1 ss
