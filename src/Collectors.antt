-- ===== src/Collectors.antt =====
-- quic-go-bbr/internal/congestion/stats.go, bbrv3_stats_v2.go, bbrv3_stats_optimized.go and
-- stats_wrapper.go: the collectors without a mutex, and the wrappers that feed them.
pub mod Calls
pub mod Atomic
pub mod Names
pub mod StatsV2
pub mod StatsOptimized
pub mod Agree
pub mod Queue
pub mod Emptying
pub mod Stopping
pub mod Racing
pub mod Owed
pub mod Quiescent
pub mod Overtaking
pub mod Logging
pub mod Wrapped
pub mod Transparent
mod Runs
pub mod Embedded
