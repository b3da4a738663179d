-- ===== src/Mcp.antt =====
-- The MCP transport: src/internal/transport/mcp.
pub mod Codec
pub mod Server
mod Tests
