-- ===== src/Policy.antt =====
-- cpp_test/stand_cpp/014.template_policy/014.template_policy.cpp: classes put together from policies,
-- which are template arguments there and arguments here.
mod Tests
pub mod Sorter
pub mod Host
pub mod Plugins
