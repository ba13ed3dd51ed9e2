-- ===== src/Api.antt =====
-- nouns-api/src: ideas, their votes and comments, users, and authentication.
pub mod Types
pub mod Prisma
pub mod Tags
pub mod Votes
pub mod Ideas
pub mod Filters
pub mod Users
pub mod Auth
pub mod Controllers
pub mod Login
pub mod Resolvers
mod Tests
