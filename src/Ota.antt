-- ===== src/Ota.antt =====
-- behaviortree_test/026.ota_state/026.ota_state.cpp: the task OtaTask and its behaviour tree node.
-- `Coroutine` has the enum and the coroutine, `Node` the node; the other files prove.
mod Tests
pub mod Coroutine
pub mod Total
pub mod Cancel
pub mod Race
pub mod Node
