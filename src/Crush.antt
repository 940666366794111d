-- ===== src/Crush.antt =====
-- src/crush: the placement of objects on devices; here its hash.
pub mod Hash
pub mod StableMod
mod Runs
