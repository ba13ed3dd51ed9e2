-- ===== src/Web.antt =====
-- packages/nouns-webapp/src: the state of the pages, and what they show of it.
pub mod AuctionSlice
pub mod OnDisplay
pub mod Logs
pub mod PastAuctions
pub mod Displayed
pub mod Proposals
pub mod Settings
pub mod Selection
pub mod BidOrder
pub mod Activity
pub mod ProfileVotes
pub mod BidForm
pub mod IdeaCache
pub mod SnapshotVotes
pub mod Transactions
pub mod ProposalForm
pub mod SeedCache
mod Tests
mod PageTests
