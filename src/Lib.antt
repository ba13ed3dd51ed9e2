-- ===== src/Lib.antt =====
-- Lil Nouns: the indexer of the contracts' events, the images of the nouns, the state of the web
-- application, the bots that announce auctions and proposals, and the API of the proposal lot.
--
-- packages/nouns-subgraph keeps a store of entities from the events of three contracts. The host
-- calls a handler for each event; a handler loads entities, which are copies, changes them and saves
-- them. Subgraph models it:
--   - Subgraph.Entities, Subgraph.Events: the entities of packages/nouns-subgraph/schema.graphql and
--     the parameters of the events. A field that may be unset or null is an Option.
--   - Subgraph.Store: the store, one table per entity type, and the monad of a run. A run that traps
--     leaves the store as it was. `log.error` is a list of entries.
--   - Subgraph.Host: what the handlers call of graph-ts (conversions of ids, division, toI32), a
--     parameter with the documented behaviour as laws.
--   - Subgraph.Helpers: packages/nouns-subgraph/src/utils/helpers.ts and constants.ts, as
--     get_or_create_account for getOrCreateAccount and so on; Helpers.Found has their equations.
--   - Subgraph.Auction: nouns-auction-house.ts. Lifecycle states what one auction goes through, Runs
--     that a run of events follows it, Bids what a bid writes.
--   - Subgraph.Token: nouns-erc-721.ts. Steps has the equations of the parts of handleTransfer,
--     Transfers, Supply, Delegation and Redelegation what the handlers write.
--   - Subgraph.Title, Subgraph.Quorum, Subgraph.Dao: nouns-dao.ts and utils/dynamicQuorum.ts.
--     Ballot and Votes are about the votes, Proposals about the other events of a proposal, Params
--     about the parameters of the dynamic quorum.
--   - Subgraph.Tests: a host and a small store, with runs at concrete inputs.
--
-- Each handler is one function with its source's name in snake case. Parts that mutate a copy in
-- place are functions that return the changed copy (take_from, give_to, tally). The module globals
-- accountNouns and transferredNounId are arguments.
--
-- packages/nouns-sdk/src/image turns the pixels of a part of a noun into a text, and such texts into an
-- SVG image. Sdk models it:
--   - Sdk.Hex: utils.ts, with the reading of hexadecimal texts.
--   - Sdk.Image: image.ts, the class Image: calcBounds, toRLE and encode, where the colors that toRLE
--     adds to its argument are a second result. Image.Bounds, Image.Runs and Image.Palette have the
--     lemmas on the three. An image has at least one row.
--   - Sdk.Decode, Sdk.Svg: svg-builder.ts. The result is none where the source has a NaN. The loop of
--     one draw runs on as many turns as the draw has pixels, which are enough since each turn draws one
--     at least. Svg.Painting says which pixels are painted.
--   - Sdk.Encoder: png-collection-encoder.ts, with the folders in the order in which they are added.
--   - Sdk.Tests: a small image, encoded, decoded and drawn.
--
-- packages/nouns-webapp/src/state/slices has the reducers of the pages' state, and wrappers and utils what
-- the pages show of it. Web models:
--   - Web.AuctionSlice: auction.ts, with the leading bid in AuctionSlice.Leading.
--   - Web.OnDisplay: onDisplayAuction.ts, with the steps between auctions in OnDisplay.Steps.
--   - Web.Logs: logs.ts, with the key of a filter from utils/logParsing.ts; Logs.Blocks is about the
--     blocks of the results. Logs.Keys has the way back from a key, and Keys.RoundTrip what it keeps.
--   - Web.PastAuctions, Web.Settings: pastAuctions.ts, application.ts and account.ts.
--   - Web.Displayed: wrappers/onDisplayAuction.ts and utils/nounderNoun.ts, the auction and the bids that
--     are shown, with Displayed.Shown.
--   - Web.Proposals: getProposalState of wrappers/nounsDao.ts, with Proposals.Progress.
--   - Web.BidOrder: utils/compareBids.ts and bidSorter.ts. Web.Selection:
--     propLot/utils/queryFilterHelpers.ts.
--   - Web.Activity: wrappers/nounActivity.ts, the events that the page of a noun lists, as functions of the
--     answers that the hooks read, with Activity.Listed. A block number that is no number is left out.
--   - Web.ProfileVotes: propLot/hooks/useProfileGovernanceData.ts, the proposals of a profile by how it
--     voted, with ProfileVotes.Categories.
--   - Web.Logs.Updater: state/updaters/logs.ts, with Updater.Started about the fetches that it
--     starts, Updater.Settled, and Updater.Stable about the keys for which they hold.
--   - Web.BidForm: of components/Bid the least next bid and the handler of a bid, with BidForm.Placed.
--   - Web.IdeaCache: of hooks/useIdeas.ts the changes of the cache, with IdeaCache.Votes.
--   - Web.SnapshotVotes: bigNounsPropStatus of components/Proposals and prepareSnapshot of pages/NounsVote,
--     with SnapshotVotes.Agreement.
--   - Web.Transactions: formatProposalTransactionDetails of wrappers/nounsDao.ts and bigNounsDao.ts, with
--     Transactions.Signatures.
--   - Web.ProposalForm: pages/CreateProposal with the button of components/CreateProposalButton; Described
--     is about the title that the subgraph finds, Submitted about runs of the form. The dialog that makes
--     an action is left out: an event brings any action.
--   - Web.SeedCache: of wrappers/nounToken.ts the seeds in the storage of the browser, as the values whose
--     texts are stored, with SeedCache.Faithful.
--   - Web.Tests, Web.PageTests: sequences of actions, and witnesses.
--
-- packages/nouns-assets/src/utils.ts chooses the parts of a noun by a hash. Assets models it, with the
-- hash and the library of big numbers as parameters; Assets.Seeder compares the choice with the formula
-- of the contract, and Assets.Tests has a witness.
--
-- packages/nouns-bots/src asks the subgraph for the last auction and for all proposals, again and again,
-- compares the answer with a cache in Redis, and announces what is new. Bots models it:
--   - Bots.Types: types.ts. Bots.Redis: Redis and the texts of JavaScript values, a parameter with the
--     documented behaviour as laws.
--   - Bots.Cache: cache.ts, with what is read after a write in Cache.Stored.
--   - Bots.World: the cache and what was announced, the answers from outside, and the monad of a tick.
--     A tick that rejects stops there, and what it wrote before stays.
--   - Bots.Twitter: handlers/twitter.ts, with the keys that it leaves in Twitter.Replies. Of
--     handlers/discord.ts, which changes nothing of the cache, the model has whether it resolves.
--   - Bots.Auctions: index.ts, setupAuction and processAuctionTick; Auctions.Announced is about runs of
--     ticks.
--   - Bots.Proposals, Bots.Governance: utils/proposals.ts and processGovernanceTick. Governance.Settled
--     and Governance.Rejected are about the run for one proposal, Governance.Ticks and
--     Governance.Repeats about a tick over several. The source starts the runs for all
--     proposals and waits for none; in the model they stand one after the other. An announcement and a
--     write to Redis may reject, and a write that rejects writes nothing; a read resolves. In the other
--     ticks and in the setups all calls of Redis resolve.
--   - Bots.Tests: a cache that is a table, with witnesses.
--
-- packages/nouns-api/src keeps ideas with votes and comments, and users with counts of tokens. Api
-- models it:
--   - Api.Types, Api.Prisma: the records of the database, and its client, a parameter with the
--     documented behaviour as laws; a service is a function on the database with a result or an error.
--   - Api.Votes: the counts of votes and the consensus of services/ideas.ts and services/user.ts, with
--     the totals in Votes.Totals. The floored percentage is floating point in the source, and a
--     parameter.
--   - Api.Tags: virtual.ts and getIsClosed, with Tags.Exclusive. Api.Filters: the parameters of
--     graphql/utils/queryUtils.ts, with Filters.Params. Api.Resolvers: the filters of lists and profiles
--     in graphql/resolvers, with Resolvers.Selected; the texts of numbers are a parameter.
--   - Api.Ideas: services/ideas.ts. Ideas.Sorting is about the search, Ideas.Voting about votes,
--     comments and deletion. Api.Users: services/user.ts and services/auth.ts, with Users.Transfers.
--   - Api.Auth: middlewares/auth.ts, with Auth.Agreement. Api.Controllers: controllers/ideas.ts, with
--     Controllers.Ownership; of several responses to a request the first goes out, and a later one
--     throws. Api.Login: controllers/auth.ts and utils/utils.ts, with Login.Admitted.
--   - Api.Tests: a database of tables, with witnesses.
--
-- Base has what the rest shares: integers, tables, texts as lists of character codes with split, join
-- and trim, and the lemmas about them. Besides the loop of one draw and
-- the digits of a number, which are at most as many as the number, no function of the model runs on
-- fuel.
--
-- What is assumed: a BigInt is an integer without a bound, an i32 that is not divided wraps around at
-- 2 ^ 32, a getter of an unset field traps, and a save never does, also if a required field is unset. A
-- save of a new entity under an id that is stored merges the two: what is unset stays as it was. This
-- matters for the bidder of an auction only; every other new entity is saved with all its fields or
-- under a new id.
-- A text is modelled by its code units.
--
-- Not modelled: the contracts (Solidity), the rest of the web application, the server and the routes of
-- the API, the texts of the bots' messages, the images' data, and of the SDK the addresses of contracts and
-- the writing of files.
pub mod Api
pub mod Assets
pub mod Base
pub mod Bots
pub mod Sdk
pub mod Subgraph
pub mod Web
