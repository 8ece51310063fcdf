-- ===== src/Web.antt =====
-- moq-go/h3, moq-go/wt and moq-go/moqt/moqlistener.go: HTTP/3 frames, WebTransport sessions over a QUIC
-- connection, and the listener that hands them out.
pub mod Settings
pub mod Frames
pub mod Requests
pub mod Sessions
pub mod SettingsLaws
pub mod FrameLaws
pub mod StreamLaws
pub mod RequestLaws
pub mod UpgradeLaws
pub mod Listener
pub mod ListenerLaws
mod Runs
