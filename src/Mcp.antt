-- ===== src/Mcp.antt =====
-- The MCP server, apps/mcp: OAuth grants of assistants on mailboxes.
pub mod Texts
pub mod Store
pub mod Enrollments
pub mod Connections
pub mod Outcome
pub mod Tokens
pub mod Bearer
mod Tests
