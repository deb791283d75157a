-- ===== src/Optlir.antt =====
-- src/optlir/: the optimiser of ALIR modules.
pub mod UsedSet
pub mod Calls
pub mod Globals
pub mod Structs
pub mod Unused
pub mod Reach
pub mod Allocs
pub mod Branches
pub mod Redirect
pub mod Constants
