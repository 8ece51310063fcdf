-- ===== src/Wire.antt =====
-- moq-go/moqt/wire: the control messages of MoQ Transport and their parameters. Byte strings, and
-- Go strings as their bytes, are lists of numbers. A panic of `quicvarint.Append` is `none`.
pub mod Params
pub mod Messages
pub mod Codes
pub mod ParamLoop
pub mod Opening
pub mod Replies
pub mod Contents
pub mod RoundTrip
mod Runs
pub mod Streams
pub mod Relaying
pub mod Headers
pub mod Within
pub mod Progress
pub mod Groups
pub mod Piping
pub mod Losing
mod StreamRuns
