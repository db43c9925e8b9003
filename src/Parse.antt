-- ===== src/Parse.antt =====
-- parsecmd.cc, with the parts of CmdExec.cc and ArgV.cc that write what it reads.
pub mod Words
pub mod Args
pub mod Command
pub mod Quote
pub mod Trail
pub mod RoundTrip
pub mod Halts
pub mod Cycle
mod Tests
