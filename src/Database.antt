-- ===== src/Database.antt =====
-- src/database.py: the tables, and the actions that read and write them.
--
-- A table is the list of its rows, oldest first; a TEXT column is a text, an INTEGER column an
-- integer, a column that may be NULL an Option, and a column that holds JSON the value it encodes.
-- `tick` counts the reads of the environment: random identifiers, times and calls of Stripe.
mod Rows
mod Environment
mod Monad
pub use Rows.*
pub use Environment.*
unfoldable pub use Monad.*
