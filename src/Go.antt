-- ===== src/Go.antt =====
-- What the program uses of Go's language and standard library: strings, decimal numbers, clocks,
-- HTTP messages, JSON text and log lines.
pub mod Strings
pub mod Decimal
pub mod Clock
pub mod Ticker
pub mod Http
pub mod Json
pub mod Log
pub mod Rfc3339
