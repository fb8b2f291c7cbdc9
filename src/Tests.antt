-- ===== src/Tests.antt =====
-- Concrete libraries, nodes and messages, the runs of the program on them, and the theorems at
-- these inputs.
pub mod Library
pub mod World
pub mod Wire
pub mod Tables
pub mod Network
pub mod Flooding
pub mod Net
pub mod Line
pub mod Announcing
pub mod Startup
pub mod Running
pub mod Interleaved
pub mod Drawing
