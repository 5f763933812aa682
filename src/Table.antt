-- ===== src/Table.antt =====
-- A database table is the list of its rows, oldest first. These are the forms of SQL that the
-- services use, and their laws.
mod Query
mod Laws
mod Sorting
mod Rows
pub use Query.*
pub use Sorting.*
pub use Laws.*
pub use Rows.*
