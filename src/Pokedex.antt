-- ===== src/Pokedex.antt =====
-- pokedex-server/pokedex-server.c: the file system server.
pub mod State
pub mod Search
pub mod Blocks
pub mod Walk
pub mod Content
pub mod Nodes
pub mod Files
pub mod Layout
pub mod Requests
pub mod Client
mod Examples
