-- ===== src/Text.antt =====
-- src/lib/impl/kstring.c: strings and memory.
pub mod Glob
pub mod Bracket
pub mod Number
pub mod Reverse
pub mod Spell
pub mod RoundTrip
pub mod Long
pub mod Search
pub mod Border
pub mod Plain
pub mod First
pub mod Memory
pub mod Match
pub mod Decide
mod Tests
