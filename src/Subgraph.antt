-- ===== src/Subgraph.antt =====
-- nouns-subgraph: the event handlers that index the contracts' events into an entity store.
pub mod Host
pub mod Entities
pub mod Store
pub mod Events
pub mod Helpers
pub mod Auction
pub mod Title
pub mod Quorum
pub mod Dao
pub mod Token
mod Tests
