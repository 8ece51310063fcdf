-- ===== src/Session/Dispatch.antt =====
-- moq-go/moqt/controlstream.go: the messages that one session writes to a control stream, and the calls
-- that the session at its other end makes.
use mathlib.Core.List.{append_assoc, append-nil}
use moq_quic_bbrv3_go.Prelude.{
  ℕ, zero, suc, ◌<◌, ◌≡◌, refl, sym, ap, ◌∙◌, arith, true, List, [], ◌∷◌, ◌++◌, Option, some,
  length, All,
}
use moq_quic_bbrv3_go.Varint.{Parsed, ok, read, read_byte}
use moq_quic_bbrv3_go.Wire.Params.{◌>>=◌}
use moq_quic_bbrv3_go.Wire.Messages.{
  Message, client_setup, server_setup, announce, announce_ok, subscribe, subscribe_ok, unsubscribe,
  subscribe_done, message_bytes, parse_message,
}
use moq_quic_bbrv3_go.Wire.RoundTrip.{Writable, received, parse_message-message_bytes}
use moq_quic_bbrv3_go.Wire.Progress.{parse_message-shorter}
use moq_quic_bbrv3_go.Session.State.{
  Session, write_control_message, handle_control_message, receive,
}
use moq_quic_bbrv3_go.Session.Steps.{receive-done}
use moq_quic_bbrv3_go.Session.Serve.{ended, deliver, proceed, serve_cs}

-- The messages, one after the other.
abbrev pub write_all : List Message → Session → Option Session
write_all [] s = some s
write_all (m ∷ ms) s = do s1 ← write_control_message m s; write_all ms s1

-- The call of the handler that a message makes: none for a setup, and for SUBSCRIBE_DONE.
abbrev pub call : Message → List Message
call (client_setup m) = []
call (server_setup m) = []
call (subscribe_done m) = []
call m = received m ∷ []

abbrev pub calls : List Message → List Message
calls [] = []
calls (m ∷ ms) = call m ++ calls ms

handle_control_message-call :
    (m : Message) (t : Session)
    → handle_control_message (received m) t ≡ record t { handled = t.handled ++ call m }
unfolding handle_control_message
handle_control_message-call (client_setup m) t =
    ap (λ h. record t { handled = h }) (sym (append-nil t.handled))
handle_control_message-call (server_setup m) t =
    ap (λ h. record t { handled = h }) (sym (append-nil t.handled))
handle_control_message-call (announce m) t = refl
handle_control_message-call (announce_ok m) t = refl
handle_control_message-call (subscribe m) t = refl
handle_control_message-call (subscribe_ok m) t = refl
handle_control_message-call (unsubscribe m) t = refl
handle_control_message-call (subscribe_done m) t =
    ap (λ h. record t { handled = h }) (sym (append-nil t.handled))

-- A message and what follows it on the stream, in a session whose handshake is done.
serve_cs-message :
    (n : ℕ) (m : Message) (r bs : List ℕ) (t : Session)
    → t.is_handshake_done ≡ true
    → parse_message bs ≡ ok (some (received m)) r
    → serve_cs (suc n) bs t ≡ serve_cs n r (record t { handled = t.handled ++ call m })
unfolding serve_cs receive
serve_cs-message n m r bs t d p =
    ap (λ (q : Parsed (Option Message)). deliver (serve_cs n) q.error q.value q.rest t) p
    ∙ ap (proceed (serve_cs n) r) (receive-done (received m) t d)
    ∙ ap (λ u. serve_cs n r u) (handle_control_message-call m t)

serve_cs-silent :
    (n : ℕ) (t : Session) → 0 < n → serve_cs n [] t ≡ ended (record t { handled = t.handled ++ [] })
unfolding serve_cs parse_message read read_byte
serve_cs-silent zero t l = absurd (omega arith)
serve_cs-silent (suc n) t l =
    ap (λ h. ended (record t { handled = h })) (sym (append-nil t.handled))

-- One message in front of those that are served.
serve_cs-front :
    (n : ℕ) (m : Message) (r bs : List ℕ) (hs : List Message) (t : Session)
    → t.is_handshake_done ≡ true
    → parse_message bs ≡ ok (some (received m)) r
    → length bs < n
    → ((k : ℕ) (u : Session)
        → u.is_handshake_done ≡ true
        → length r < k
        → serve_cs k r u ≡ ended (record u { handled = u.handled ++ hs }))
    → serve_cs n bs t ≡ ended (record t { handled = t.handled ++ (call m ++ hs) })
serve_cs-front zero m r bs hs t d p l f = absurd (omega arith)
serve_cs-front (suc n) m r bs hs t d p l f =
    let shorter = parse_message-shorter bs (ap (λ q. q.error) p) in
    let left : length (parse_message bs).rest ≡ length r = ap (λ q. length q.rest) p in
    serve_cs-message n m r bs t d p
    ∙ f n (record t { handled = t.handled ++ call m }) d (omega (arith, shorter, left))
    ∙ ap (λ h. ended (record t { handled = h })) (append_assoc t.handled (call m) hs)

-- The bytes of messages, and the loop on them.
record Carried (ms : List Message) : Type 0 where
  bytes : List ℕ
  writes :
      (s : Session)
      → s.has_control ≡ true
      → write_all ms s ≡ some (record s { written = s.written ++ bytes })
  serves :
      (n : ℕ) (t : Session)
      → t.is_handshake_done ≡ true
      → length bytes < n
      → serve_cs n bytes t ≡ ended (record t { handled = t.handled ++ calls ms })

write_control_message-bytes :
    (m : Message) (bs : List ℕ) (s : Session)
    → message_bytes m ≡ some bs
    → s.has_control ≡ true
    → write_control_message m s ≡ some (record s { written = s.written ++ bs })
unfolding write_control_message
write_control_message-bytes m bs s e c = rw (c, e) refl

carried : (ms : List Message) → All Writable ms → Carried ms
carried [] h = record {
  bytes = [];
  writes = λ s c. ap (λ w. some (record s { written = w })) (sym (append-nil s.written));
  serves = λ n t d l. serve_cs-silent n t l;
}
carried (m ∷ ms) (h, hs) =
    let rest = carried ms hs in
    let (bs, w, p) = parse_message-message_bytes m rest.bytes h in
    record {
      bytes = bs ++ rest.bytes;
      writes = λ s c.
          ap (λ o. o >>= write_all ms) (write_control_message-bytes m bs s w c)
          ∙ rest.writes (record s { written = s.written ++ bs }) c
          ∙ ap (λ x. some (record s { written = x })) (append_assoc s.written bs rest.bytes);
      serves = λ n t d l.
          serve_cs-front n m rest.bytes (bs ++ rest.bytes) (calls ms) t d p l rest.serves;
    }

-- Messages that can be written, in any number, are written by a session with a control stream without a
-- panic. The loop of the session at the other end, its handshake done, reads all of them and ends with
-- the bytes; it has called its handler once for each, in their order and with what a peer reads of it,
-- and for no setup message, and is otherwise unchanged.
pub write_all-serve_cs :
    (ms : List Message) (s t : Session)
    → s.has_control ≡ true
    → t.is_handshake_done ≡ true
    → All Writable ms
    → (bytes : List ℕ) × (write_all ms s ≡ some (record s { written = s.written ++ bytes }))
      × (serve_cs (suc (length bytes)) bytes t
          ≡ ended (record t { handled = t.handled ++ calls ms }))
write_all-serve_cs ms s t c d h =
    let k = carried ms h in
    (k.bytes, k.writes s c, k.serves (suc (length k.bytes)) t d (omega arith))
