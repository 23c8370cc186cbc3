-- ===== src/Go.antt =====
-- What the program uses of the Go language and its standard library.
pub mod Text
pub mod Errors
pub mod Exec
pub mod Maps
pub mod Format
pub mod FilePath
pub mod Channel
pub mod Base64
pub mod Log
