-- ===== src/Data/Crud.antt =====
-- components/data/sql_util/database_access/database_crud_helpers.cpp: reading and writing rows.
pub mod Params
pub mod Statements
pub mod Queries
pub mod Binding
pub mod Injection
mod Tests
pub mod Refusing
pub mod Operations
pub mod Templates
pub mod Paging
pub mod Accepting
pub mod Columns
pub mod Meaning
