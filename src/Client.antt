-- ===== src/Client.antt =====
-- moq-go/moqt: pubhandler.go, pubstream.go, subhandler.go and substream.go, the two ends of a track.
pub mod State
pub mod Circle
pub mod Track
mod Runs
