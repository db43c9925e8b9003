-- ===== src/Parse/Halts.antt =====
-- Where no word is an alias, `parse_one_cmd` (parsecmd.cc) ends, and only takes bytes off the
-- front of its buffer.
mod Scans
pub mod Steps
pub mod Total
