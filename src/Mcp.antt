-- ===== src/Mcp.antt =====
-- packages/mcp: the tools that agents call by name.
pub mod Catalog
