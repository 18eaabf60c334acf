-- ===== src/Qlay.antt =====
-- tools/nanoql_drive.py: QLAY Microdrive images.
pub mod Sector
pub mod Header
pub mod Build
pub mod Validate
pub mod Parse
pub mod Folder
pub mod Extract
pub mod Tests
