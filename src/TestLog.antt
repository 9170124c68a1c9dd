-- ===== src/TestLog.antt =====
-- cmd/hiveview/assets/lib/testlog.js: cutting a log into lines, and reading a log in pieces.
pub mod Lines
pub mod Decode
pub mod LineDecoder
pub mod ReverseBuffer
pub mod Loader
pub mod Tail
pub mod Example
mod Tests
