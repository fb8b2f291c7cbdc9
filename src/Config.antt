-- ===== src/Config.antt =====
-- The configuration of dtnex.c: `loadConfig`, and the flags of the command line that `main` reads
-- after it. Bytes of a text come from a literal through `codes`.
pub mod Lines
pub mod Assign
pub mod Texts
pub mod Bounds
pub mod Tokens
pub mod Quoted
pub mod Arguments
