-- ===== src/Script.antt =====
-- The script engine of src/MCP/MCP06.
pub mod Opcode
pub mod Outcome
pub mod Num
pub mod Flags
pub mod Code
pub mod Encoding
pub mod Stack
pub mod Numeric
pub mod Checker
pub mod Machine
pub mod Interp
pub mod Literal
pub mod Verify
mod Runs
