-- ===== src/Pokedex/Files.antt =====
-- What the handlers of pokedex-server.c that work on the blocks of a file leave of the file system.
pub mod Spec
pub mod Handled
pub mod Leaves
pub mod Unlink
pub mod Truncate
pub mod Read
pub mod Growth
pub mod Write
