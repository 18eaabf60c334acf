-- ===== src/Drive.antt =====
-- tools/nanoql_link.py, the Drive1 folder of the microSD card and the files on it.
pub mod RemotePath
pub mod Files
pub mod Download
pub mod Upload
pub mod Microdrive
pub mod Tests
