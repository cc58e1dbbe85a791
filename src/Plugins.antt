-- ===== src/Plugins.antt =====
-- libel/plugin.c and the two basic plugins of plugins/.
pub mod Compare
pub mod ApWorst
pub mod Chain
pub mod CellMatch
pub mod ApMatch
pub mod Register
