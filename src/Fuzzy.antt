-- ===== src/Fuzzy.antt =====
-- The fuzzy engine (fuzzy/): memberships, the rule base, and Tsukamoto's inference.
pub mod Membership
pub mod Rules
pub mod Tsukamoto
pub mod Partition
pub mod Fires
pub mod Score
pub mod Inputs
mod Tests
