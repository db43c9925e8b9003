-- ===== src/Url.antt =====
-- url.cc and url.h, with the coding of URLs in xstring.cc.
pub mod Coding
pub mod Scan
pub mod Password
pub mod Fields
pub mod Parse
pub mod Combine
pub mod Connect
pub mod Pieces
pub mod Whole
mod Tests
