-- ===== src/Go.antt =====
-- What the program uses of Go's `fmt`, `time` and maps.
pub mod Fmt
pub mod Time
pub mod Dict
pub mod Outcome
pub mod Scan
pub mod RoundTrip
mod Tests
