-- ===== src/Opt.antt =====
-- src/feopt/opt.c: the optimiser of the intermediate code.
pub mod Const
pub mod Blocks
pub mod Reach
pub mod Defs
pub mod Fold
pub mod Sound
pub mod Passes
pub mod Branches
pub mod Exits
