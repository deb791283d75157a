-- ===== src/Hashmap.antt =====
-- src/common/hashmap.c
pub mod Hash
pub mod Cycle
pub mod Probe
pub mod Walk
pub mod Leads
pub mod Map
pub mod Ops
pub mod Table
pub mod Layout
pub mod Search
pub mod Values
pub mod Growth
pub mod Written
pub mod Removed
pub mod Remove
pub mod Bounded
pub mod Put
pub mod Intern
pub mod Laws
pub mod Capacity
pub mod Sets
