-- ===== src/Database.antt =====
-- The state that log processors act on: the tables of the database, the events that subscribers are
-- sent, and the clock of src/blockchain/process-block.ts. Addresses, hashes and identifiers are only
-- compared, so they are numbers.
mod Rows
mod Actions
pub use Rows.*
unfoldable pub use Actions.*
