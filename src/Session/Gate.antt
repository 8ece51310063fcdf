-- ===== src/Session/Gate.antt =====
-- moq-go/moqt/controlstream.go: what the handshake guarantees on whatever a peer sends, and that the
-- loop of `ServeCS` ends.
use moq_quic_bbrv3_go.Prelude.{ℕ, ◌≤◌, ◌≡◌, List, some, length}
use moq_quic_bbrv3_go.Varint.{out_of_range}
use moq_quic_bbrv3_go.Wire.Messages.{parse_message}
use moq_quic_bbrv3_go.Session.State.{Session}
use moq_quic_bbrv3_go.Session.Serve.{Served, ended, crashed, panicked, out_of_fuel}

-- The loop has ended with a session in which a property holds, or in a panic of
-- `make`, and then another property holds.
abbrev pub Ends : Served → (Session → Type 0) → Type 0 → Type 0
Ends (ended s) P Q = P s
Ends crashed P Q = Q
Ends panicked P Q = ⊥
Ends out_of_fuel P Q = ⊥

-- Among the last bytes stands a message with a length that `make` refuses.
abbrev pub Overlong : List ℕ → Type 0
Overlong r =
    (after : List ℕ) × (length after ≤ length r) × ((parse_message after).error ≡ some out_of_range)
