-- ===== src/Subgraph/Auction.antt =====
-- nouns-auction-house.ts: the handlers of the auction house's events.
pub mod Lifecycle
pub mod Runs
pub mod Bids
use lilnouns_monorepo.Base.{String, false, true, Option, none, some, [], ◌∷◌}
use lilnouns_monorepo.Base.Int.{pos}
use lilnouns_monorepo.Base.Table.{load}
use lilnouns_monorepo.Subgraph.Host.{GraphTs}
use lilnouns_monorepo.Subgraph.Entities.{Noun, Auction, Account}
use lilnouns_monorepo.Subgraph.Events.{AuctionCreated, AuctionBid, AuctionExtended, AuctionSettled}
use lilnouns_monorepo.Subgraph.Store.{
  Store, M, ⊤, pure, gets, ◌>>=◌, ◌>>◌, log_error, save_auction, save_bid,
}
use lilnouns_monorepo.Subgraph.Helpers.{get_or_create_account}

-- `if (x == null) { log.error(message, [id, hash]); return; }` and the rest
abbrev pub or_log : {A : Type 0} → Option A → String → String → String → (A → M ⊤) → M ⊤
or_log none message id hash rest = log_error message (id ∷ hash ∷ [])
or_log (some a) message id hash rest = rest a

-- What an unset bidder is after the save: a save of a new entity under an id that is stored merges the
-- fields, so that an unset one stays as it was.
abbrev pub bidder_of : Option Auction → Option String
bidder_of none = none
bidder_of (some a) = a.bidder

module _ (g : GraphTs) where
  unfoldable pub handle_auction_created : AuctionCreated → M ⊤
  handle_auction_created event = do
    let noun_id = g.to_string event.noun_id
    noun ← gets (λ s. load noun_id s.nouns)
    or_log noun "[handleAuctionCreated] Noun #{} not found. Hash: {}" noun_id
        (g.to_hex event.at.hash)
        λ n. do
          stored ← gets (λ s. load noun_id s.auctions)
          save_auction (record {
            id = noun_id;
            noun = n.id;
            amount = pos 0;
            start_time = event.start_time;
            end_time = event.end_time;
            bidder = bidder_of stored;
            settled = false;
          })

  unfoldable pub handle_auction_bid : AuctionBid → M ⊤
  handle_auction_bid event = do
    let noun_id = g.to_string event.noun_id
    bidder ← get_or_create_account (g.to_hex event.sender) true true
    found ← gets (λ s. load noun_id s.auctions)
    or_log found "[handleAuctionBid] Auction not found for Noun #{}. Hash: {}" noun_id
        (g.to_hex event.at.hash)
        λ auction. do
          save_auction (record auction { amount = event.value; bidder = some bidder.id })
          save_bid (record {
            id = g.to_hex event.at.hash;
            noun = auction.noun;
            amount = event.value;
            bidder = bidder.id;
            block_number = event.at.number;
            tx_index = event.at.index;
            auction = auction.id;
            block_timestamp = event.at.timestamp;
          })

  unfoldable pub handle_auction_extended : AuctionExtended → M ⊤
  handle_auction_extended event = do
    let noun_id = g.to_string event.noun_id
    found ← gets (λ s. load noun_id s.auctions)
    or_log found "[handleAuctionExtended] Auction not found for Noun #{}. Hash: {}" noun_id
        (g.to_hex event.at.hash)
        λ auction. save_auction (record auction { end_time = event.end_time })

  unfoldable pub handle_auction_settled : AuctionSettled → M ⊤
  handle_auction_settled event = do
    let noun_id = g.to_string event.noun_id
    found ← gets (λ s. load noun_id s.auctions)
    or_log found "[handleAuctionSettled] Auction not found for Noun #{}. Hash: {}" noun_id
        (g.to_hex event.at.hash) λ auction. save_auction (record auction { settled = true })
