-- ===== src/Bbr1.antt =====
-- quic-go-bbr/internal/congestion/bbrv1.go: the BBRv1 congestion controller.
pub mod Float
pub mod State
pub mod Calls
pub mod Gains
pub mod Recent
pub mod Delivered
pub mod Phases
pub mod ProbeRtt
pub mod Sent
mod Runs
