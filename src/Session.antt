-- ===== src/Session.antt =====
-- moq-go/moqt: moqtsession.go, controlstream.go and moqtdialer.go, the handshake of a session, the
-- loop that reads its control stream.
pub mod State
pub mod Serve
pub mod Typed
pub mod Steps
pub mod Gate
pub mod Dispatch
pub mod Handshake
pub mod Dialing
mod Runs
