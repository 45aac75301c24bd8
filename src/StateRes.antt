-- ===== src/StateRes.antt =====
-- src/core/matrix/state_res: the authorisation rules and the state resolution algorithm.
pub mod Result
pub mod Event
pub mod RoomVersion
pub mod Content
pub mod PowerLevels
pub mod Auth
pub mod Resolve
mod Samples
mod TextOrder
mod Tests
mod ResolveTests
mod MainlineTests
mod TopologicalTests
mod WholeTests
