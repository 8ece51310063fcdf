-- ===== src/Web/FrameLaws.antt =====
-- moq-go/h3: a frame that is written is read back, and settings that are never read to their end.
use moq_quic_bbrv3_go.Prelude.{
  ℕ, zero, suc, ◌≤◌, ◌≡◌, refl, List, [], ◌∷◌, ◌++◌, none, some, length, All, arith, max_u64,
}
use mathlib.Core.List.{append_assoc}
use moq_quic_bbrv3_go.Wire.Params.{max_make}
use moq_quic_bbrv3_go.Varint.{ok, check, read, read_byte, len, max_varint}
use moq_quic_bbrv3_go.Varint.RoundTrip.{encoding, read-encoding, append-encoding}
use moq_quic_bbrv3_go.Wire.Codes.{read_full-append}
use moq_quic_bbrv3_go.Web.Settings.{
  no_setting, frame_settings, parse_settings, parse_setting, setting_length, settings_loop,
}
use moq_quic_bbrv3_go.Web.SettingsLaws.{
  Writable, settings_code, parse_settings-code, settings_bytes-code, settings_loop_odd,
}
use moq_quic_bbrv3_go.Web.Frames.{
  HeaderField, Http, Frame, settings_frame, header_frame, data_frame, frame_data, frame_headers,
  read_payload, parse_data, data_bytes, parse_headers, headers_bytes, parse_frame_as, parse_frame,
  frame_bytes,
}

read_payload-code :
    (body r : List ℕ)
    → length body ≤ max_make
    → read_payload (encoding (length body) ++ (body ++ r)) ≡ ok body r
unfolding read_payload
read_payload-code body r h =
    rw (
      read_payload,
      read-encoding (length body) (body ++ r) (omega arith),
      read_full-append body r h,
    )

one_left :
    (b : ℕ) → ((parse_setting (b ∷ [])).value ≡ no_setting) × ((parse_setting (b ∷ [])).rest ≡ [])
unfolding parse_setting read read_byte
one_left b = ground arith

settings_loop_one : (fuel b : ℕ) → settings_loop fuel (b ∷ []) 1 [] ≡ none
unfolding settings_loop setting_length len
settings_loop_one zero b = refl
settings_loop_one (suc fuel) b =
    rw ((one_left b).0, (one_left b).1)
      (settings_loop_odd fuel max_u64 (no_setting ∷ []) (omega arith) refl)

settings_one : (fuel b : ℕ) (r : List ℕ) → parse_settings fuel (1 ∷ b ∷ r) ≡ none
unfolding parse_settings read read_byte
settings_one fuel b r = rw (read_full-append (b ∷ []) r (omega arith), settings_loop_one fuel b)

module _ {Url Int64 : Type 0} (http : Http Url Int64) where
  open http use {decode, encode}

  abbrev pub frame_type : Frame → ℕ
  frame_type (settings_frame ss) = frame_settings
  frame_type (header_frame hfs) = frame_headers
  frame_type (data_frame body) = frame_data

  abbrev pub payload : Frame → List ℕ
  payload (settings_frame ss) = settings_code ss
  payload (header_frame hfs) = encode hfs
  payload (data_frame body) = body

  abbrev pub frame_code : Frame → List ℕ
  frame_code f = encoding (frame_type f) ++ (encoding (length (payload f)) ++ payload f)

  -- The payload fits, and so do the numbers of settings; the QPACK coder reads back these fields.
  abbrev pub FrameFits : Frame → Type 0
  FrameFits (settings_frame ss) = All Writable ss × (length (settings_code ss) ≤ max_make)
  FrameFits (header_frame hfs) = (decode (encode hfs) ≡ some hfs) × (length (encode hfs) ≤ max_make)
  FrameFits (data_frame body) = length body ≤ max_make

  -- The rounds of the loop over the settings.
  abbrev pub rounds : Frame → ℕ
  rounds (settings_frame ss) = length ss
  rounds f = 0

  pub frame_bytes-code : (f : Frame) → FrameFits f → frame_bytes http f ≡ some (frame_code f)
  unfolding frame_bytes headers_bytes data_bytes
  frame_bytes-code (settings_frame ss) h = settings_bytes-code ss h.0 h.1
  frame_bytes-code (header_frame hfs) h = rw (
    append-encoding [] frame_headers (omega arith),
    append-encoding (encoding frame_headers) (length (encode hfs)) (omega (arith, h.1)),
    append_assoc (encoding frame_headers) (encoding (length (encode hfs))) (encode hfs),
  )
  frame_bytes-code (data_frame body) h = rw (
    append-encoding [] frame_data (omega arith),
    append-encoding (encoding frame_data) (length body) (omega arith),
    append_assoc (encoding frame_data) (encoding (length body)) body,
  )

  parse_headers-code :
      (hfs : List HeaderField) (r : List ℕ)
      → FrameFits (header_frame hfs)
      → parse_headers http (encoding (length (encode hfs)) ++ (encode hfs ++ r)) ≡ ok hfs r
  unfolding parse_headers
  parse_headers-code hfs r h = rw (read_payload-code (encode hfs) r h.1) (rw (check, h.0))

  parse_frame_as-code :
      (fuel : ℕ) (f : Frame) (r : List ℕ)
      → FrameFits f
      → rounds f ≤ fuel
      → parse_frame_as http fuel (frame_type f) (encoding (length (payload f)) ++ (payload f ++ r))
        ≡ some (ok (frame_type f, some f) r)
  unfolding parse_frame_as parse_data
  parse_frame_as-code fuel (settings_frame ss) r h b = rw (parse_settings-code fuel ss r h.0 h.1 b)
  parse_frame_as-code fuel (header_frame hfs) r h b = rw (parse_headers-code hfs r h)
  parse_frame_as-code fuel (data_frame body) r h b = rw (read_payload-code body r h)

  frame_type_fits : (f : Frame) → frame_type f ≤ max_varint
  frame_type_fits (settings_frame ss) = omega arith
  frame_type_fits f = omega arith

  pub parse_frame-code :
      (fuel : ℕ) (f : Frame) (r : List ℕ)
      → FrameFits f
      → rounds f ≤ fuel
      → parse_frame http fuel (frame_code f ++ r) ≡ some (ok (frame_type f, some f) r)
  unfolding parse_frame
  parse_frame-code fuel f r h b =
      rw
        (
          append_assoc (encoding (frame_type f)) (encoding (length (payload f)) ++ payload f) r,
          read-encoding (frame_type f) ((encoding (length (payload f)) ++ payload f) ++ r)
              (frame_type_fits f),
          append_assoc (encoding (length (payload f))) (payload f) r,
        )
        (parse_frame_as-code fuel f r h b)

  -- Every frame is written, and what is written is read back, up to the bytes behind it, with as many
  -- rounds of the loop as there are settings: if `make` accepts the length of its payload; for settings,
  -- if their numbers fit a variable-length integer; for header fields, if the QPACK coder reads back
  -- what it writes of them.
  pub parse_frame-frame_bytes :
      (fuel : ℕ) (f : Frame) (r : List ℕ)
      → FrameFits f
      → rounds f ≤ fuel
      → (code : List ℕ) × (frame_bytes http f ≡ some code)
        × (parse_frame http fuel (code ++ r) ≡ some (ok (frame_type f, some f) r))
  parse_frame-frame_bytes fuel f r h b =
      (frame_code f, frame_bytes-code f h, parse_frame-code fuel f r h b)

  -- Whatever its byte is, the loop over the settings of a payload of one byte never ends: no fuel is
  -- enough to parse such a frame.
  pub parse_frame_endless :
      (fuel b : ℕ) (r : List ℕ) → parse_frame http fuel (frame_settings ∷ 1 ∷ b ∷ r) ≡ none
  unfolding parse_frame parse_frame_as read read_byte
  parse_frame_endless fuel b r = rw (settings_one fuel b r)
