-- ===== src/Setup.antt =====
-- tools/nanoql_setup.pyw: the parts of the setup assistant that are modelled.
pub mod Update
pub mod Release
