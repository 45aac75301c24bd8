-- ===== src/StateRes/Resolve.antt =====
-- src/core/matrix/state_res/mod.rs: the state resolution algorithm.
pub mod Separate
pub mod Iterative
pub mod Mainline
pub mod Topological
pub mod Power
pub mod Subgraph
pub mod Whole
