-- ===== src/Tests.antt =====
-- Concrete inputs for the theorems: a database kept as a log, and what each theorem says of it.
pub mod LogDb
pub mod TxnLog
pub mod CatalogExamples
pub mod SystemExamples
pub mod Inputs
pub mod Examples
