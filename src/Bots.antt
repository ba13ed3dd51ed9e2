-- ===== src/Bots.antt =====
-- packages/nouns-bots/src: the bots that announce auctions and proposals.
pub mod Redis
pub mod Types
pub mod Proposals
pub mod Twitter
pub mod Governance
mod Tests
pub mod Cache
pub mod World
pub mod Auctions
