-- ===== src/Bbr3.antt =====
-- quic-go-bbr/internal/congestion/bbrv3.go and bbrv3_stats.go: the BBRv3 congestion controller.
pub mod Float
pub mod Stats
pub mod Filters
pub mod State
pub mod Signals
pub mod Estimate
pub mod Cycle
pub mod Events
pub mod Calm
pub mod Rounds
pub mod Window
pub mod Growth
pub mod Stall
pub mod Transitions
pub mod AckStates
pub mod Expiry
pub mod Bounds
pub mod FilterLaws
pub mod Runs
