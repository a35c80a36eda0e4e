-- ===== src/Chain.antt =====
-- Blocks and transactions (src/MCP/MCP03), and the chains that process them (src/MCP/MCP02).
pub mod Block
pub mod Merkle
pub mod Mine
mod Runs
