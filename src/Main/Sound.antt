-- ===== src/Main/Sound.antt =====
-- The ranges of the program's data under the tasks of main.c.
pub mod Tasks
pub mod Typed
pub mod Fresh
pub mod Always
