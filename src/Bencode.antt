-- ===== src/Bencode.antt =====
-- Bencode.cc and Bencode.h: the values of the BitTorrent encoding, their parser and their printer.
pub mod Node
pub mod Decimal
pub mod Parser
pub mod Printer
pub mod Length
pub mod Leaves
pub mod Total
pub mod Canonical
pub mod Scalars
pub mod RoundTrip
mod Tests
