-- ===== src/CmdEncoder.antt =====
-- client/src/protocol/cmdEncoder.cpp: a command as a sequence of fields, each a tag, a length and the
-- content.
pub mod Encode
pub mod Decode
pub mod Wire
pub mod Visits
pub mod Layout
pub mod Steps
pub mod Sequence
pub mod Setters
pub mod Copy
pub mod RoundTrip
pub mod Safety
pub mod Size
pub mod Reserve
mod Tests
