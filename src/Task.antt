-- ===== src/Task.antt =====
-- behaviortree_test/task/task.hpp: the class template Task, a coroutine under user control.
-- `Status` has the enums and the table of set_status, `Object` the object and its public methods,
-- `Waiting` what a coroutine waits with; the other files prove.
mod Tests
pub mod Slot
pub mod Status
pub mod Object
pub mod Settled
pub mod Destructor
pub mod Waiting
