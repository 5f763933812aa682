-- ===== src/Workflow.antt =====
-- The console as a whole: the calls that its panels make, in any order and number. A call that
-- raises shows its error and leaves what it wrote before.
mod Commands
pub mod Audit
pub mod Requests
unfoldable pub use Commands.*
