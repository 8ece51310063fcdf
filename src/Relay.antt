-- ===== src/Relay.antt =====
-- moq-go/moqt: relayhandler.go, relaystream.go, sessionmanager.go and streamsmap.go, a relay that joins
-- the subscribers of a track to the stream of its publisher.
pub mod State
pub mod Calls
pub mod Quiet
pub mod Members
pub mod Refinement
pub mod Forward
pub mod Delivery
pub mod Answer
pub mod Distinct
mod Runs
