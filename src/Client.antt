-- ===== src/Client.antt =====
-- cmrclient.cpp
pub mod Zlib
pub mod Values
pub mod Calls
