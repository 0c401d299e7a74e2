-- ===== src/Models.antt =====
-- The data types of backend/models.go, one module per part of the program.
pub mod OpsCustomers
pub mod OpsWork
pub mod Crm
pub mod Queue
