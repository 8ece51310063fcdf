-- ===== src/Session/Serve.antt =====
-- moq-go/moqt/controlstream.go: the loop of `ServeCS`, on the bytes that arrive. A timeout of the
-- stream ends the loop as an error does.
use moq_quic_bbrv3_go.Prelude.{if◌then◌else◌, ℕ, zero, suc, List, Option, none, some}
use moq_quic_bbrv3_go.Varint.{Error, panics}
use moq_quic_bbrv3_go.Wire.Messages.{Message, parse_message}
use moq_quic_bbrv3_go.Session.State.{Session, receive}

-- The loop ended with a session, in a panic of `make`, in any other panic, or it has used up its fuel.
pub data Served : Type 0 where
  ended : Session → Served
  crashed : Served
  panicked : Served
  out_of_fuel : Served

-- The rest of the loop, once a message has been handled, and once one has been parsed. The parser
-- answers a message whenever it answers no error.
abbrev pub proceed : (List ℕ → Session → Served) → List ℕ → Option Session → Served
proceed loop r none = panicked
proceed loop r (some s) = loop r s

abbrev pub deliver :
    (List ℕ → Session → Served) → Option Error → Option Message → List ℕ → Session → Served
deliver loop (some e) v r s = if panics (some e) then crashed else ended s
deliver loop none none r s = panicked
deliver loop none (some m) r s = proceed loop r (receive m s)

unfoldable pub serve_cs : ℕ → List ℕ → Session → Served
serve_cs zero r s = out_of_fuel
serve_cs (suc n) r s = let p = parse_message r in deliver (serve_cs n) p.error p.value p.rest s
