-- ===== src/FileSystem.antt =====
-- utils/filesystem_wrapper: AtomicFileWriter and atomicWriteFile in `Atomic`, readFileContent and
-- getFileFirstNotEmptyLine in `Lines`, and the functions that return a constant in `Stubs`.
mod Tests
pub mod Atomic
pub mod Lines
pub mod Stubs
