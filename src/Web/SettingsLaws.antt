-- ===== src/Web/SettingsLaws.antt =====
-- moq-go/h3/settingsframe.go: what is written of settings is read back, and payloads on which the loop
-- does not end.
use moq_quic_bbrv3_go.Prelude.{
  ℕ, zero, suc, ◌+◌, ◌-◌, ◌%◌, ◌^◌, ◌≤◌, ◌<◌, ◌≡◌, refl, ap, ◌∙◌, ◌==◌, false, List, [], ◌∷◌, ◌++◌,
  none, some, length, length-append, All, arith,
}
use mathlib.Core.List.{append_assoc, append-nil}
use moq_quic_bbrv3_go.Varint
use moq_quic_bbrv3_go.Wire.Params.{max_make}
use moq_quic_bbrv3_go.Varint.{Parsed, ok, err, check, read, append, len, max_varint}
use moq_quic_bbrv3_go.Varint.RoundTrip.{encoding, read-encoding, append-encoding, len-encoding}
use moq_quic_bbrv3_go.Wire.Codes.{read_full-append}
use moq_quic_bbrv3_go.Web.Settings.{
  Setting, parse_setting, setting_bytes, setting_length, settings_loop, parse_settings,
  settings_length, append_settings, settings_bytes, frame_settings,
}

-- What is written of a setting and of a list of them.
abbrev pub setting_code : Setting → List ℕ
setting_code s = encoding s.key ++ encoding s.value

abbrev pub settings_code : List Setting → List ℕ
settings_code [] = []
settings_code (s ∷ ss) = setting_code s ++ settings_code ss

-- Both numbers fit a variable-length integer.
abbrev pub Writable : Setting → Type 0
Writable s = (s.key ≤ max_varint) × (s.value ≤ max_varint)

parse_setting-code :
    (s : Setting) (r : List ℕ) → Writable s → parse_setting (setting_code s ++ r) ≡ ok s r
unfolding parse_setting
parse_setting-code s r w = rw (
  append_assoc (encoding s.key) (encoding s.value) r,
  read-encoding s.key (encoding s.value ++ r) w.0,
  read-encoding s.value r w.1,
)

setting_length-code : (s : Setting) → Writable s → setting_length s ≡ some (length (setting_code s))
unfolding setting_length
setting_length-code s w = rw (
  len-encoding s.key w.0,
  len-encoding s.value w.1,
  length-append (encoding s.key) (encoding s.value),
)

setting_bytes-code : (s : Setting) → Writable s → setting_bytes s ≡ some (setting_code s)
unfolding setting_bytes
setting_bytes-code s w =
    rw (append-encoding [] s.key w.0, append-encoding (encoding s.key) s.value w.1)

append_settings-code :
    (ss : List Setting) (d : List ℕ)
    → All Writable ss
    → append_settings d ss ≡ some (d ++ settings_code ss)
unfolding append_settings
append_settings-code [] d w = rw (append-nil d)
append_settings-code (s ∷ ss) d w = rw (
  setting_bytes-code s w.0,
  append_settings-code ss (d ++ setting_code s) w.1,
  append_assoc d (setting_code s) (settings_code ss),
)

settings_length-code :
    (ss : List Setting)
    → All Writable ss
    → length (settings_code ss) < 2 ^ 64
    → settings_length ss ≡ some (length (settings_code ss))
unfolding settings_length
settings_length-code [] w h = refl
settings_length-code (s ∷ ss) w h =
    let e = length-append (setting_code s) (settings_code ss) in
    rw (setting_length-code s w.0, settings_length-code ss w.1 (omega arith))
      (ap some (omega arith))

encoding-pos : (i : ℕ) → 0 < length (encoding i)
unfolding encoding
encoding-pos i = ground arith

settings_step :
    (fuel : ℕ) (s : Setting) (r : List ℕ) (n : ℕ) (acc : List Setting)
    → Writable s
    → length (setting_code s) + n < 2 ^ 64
    → settings_loop (suc fuel) (setting_code s ++ r) (length (setting_code s) + n) acc
      ≡ settings_loop fuel r n (acc ++ s ∷ [])
unfolding settings_loop
settings_step fuel s r n acc w b =
    let k = length (setting_code s) in
    let pos : 0 < k =
      omega (arith, length-append (encoding s.key) (encoding s.value), encoding-pos s.key) in
    let more : (k + n == 0) ≡ false = ground arith in
    let less : (k + n + 2 ^ 64 - k) % 2 ^ 64 ≡ n = omega arith in
    rw (more, parse_setting-code s r w, setting_length-code s w, less)

settings_loop-code :
    (fuel : ℕ) (ss acc : List Setting)
    → All Writable ss
    → length (settings_code ss) < 2 ^ 64
    → length ss ≤ fuel
    → settings_loop fuel (settings_code ss) (length (settings_code ss)) acc ≡ some (acc ++ ss)
unfolding settings_loop
settings_loop-code zero [] acc w b h = rw (append-nil acc)
settings_loop-code zero (s ∷ ss) acc w b h = absurd (omega arith)
settings_loop-code (suc fuel) [] acc w b h = rw (append-nil acc)
settings_loop-code (suc fuel) (s ∷ ss) acc w b h =
    let e = length-append (setting_code s) (settings_code ss) in
    rw e (
      settings_step fuel s (settings_code ss) (length (settings_code ss)) acc w.0 (omega arith)
      ∙ settings_loop-code fuel ss (acc ++ s ∷ []) w.1 (omega arith) (omega arith)
      ∙ ap some (append_assoc acc (s ∷ []) ss))

pub parse_settings-code :
    (fuel : ℕ) (ss : List Setting) (r : List ℕ)
    → All Writable ss
    → length (settings_code ss) ≤ max_make
    → length ss ≤ fuel
    → parse_settings fuel (encoding (length (settings_code ss)) ++ (settings_code ss ++ r))
      ≡ some (ok ss r)
unfolding parse_settings
parse_settings-code fuel ss r w b h = rw (
  read-encoding (length (settings_code ss)) (settings_code ss ++ r) (omega arith),
  read_full-append (settings_code ss) r b,
  settings_loop-code fuel ss [] w (omega arith) h,
)

pub settings_bytes-code :
    (ss : List Setting)
    → All Writable ss
    → length (settings_code ss) ≤ max_make
    → settings_bytes ss
      ≡ some (encoding frame_settings ++ (encoding (length (settings_code ss)) ++ settings_code ss))
unfolding settings_bytes
settings_bytes-code ss w b = rw (
  append-encoding [] frame_settings (omega arith),
  settings_length-code ss w (omega arith),
  append-encoding (encoding frame_settings) (length (settings_code ss)) (omega arith),
  append_settings-code ss (encoding frame_settings ++ encoding (length (settings_code ss))) w,
  append_assoc (encoding frame_settings) (encoding (length (settings_code ss))) (settings_code ss),
)

-- With nothing left to read, each round takes 2 off the length, and an odd length never gets to 0.
pub settings_loop_odd :
    (fuel d : ℕ) (acc : List Setting) → d < 2 ^ 64 → d % 2 ≡ 1 → settings_loop fuel [] d acc ≡ none
unfolding settings_loop parse_setting setting_length read len Varint.read_byte
settings_loop_odd zero d acc b o = ground arith
settings_loop_odd (suc fuel) d acc b o =
    let more : (d == 0) ≡ false = ground arith in
    rw more (settings_loop_odd fuel ((d + 2 ^ 64 - 2) % 2 ^ 64) _ (omega arith) (omega arith))
