-- ===== src/Codegen.antt =====
-- pybindgen/typehandlers: the objects with which wrappers of C functions are written out.
pub mod Result
pub mod Sink
pub mod Block
pub mod Names
pub mod Params
pub mod Forward
pub mod Generate
pub mod Reverse
pub mod Matcher
pub mod Handlers
