-- ===== src/Web/PastAuctions.antt =====
-- state/slices/pastAuctions.ts: the settled auctions as the subgraph answers them. The serialization of
-- numbers is left out.
use lilnouns_monorepo.Base.{ℕ, false, Option, none, some, String, List, map}
use lilnouns_monorepo.Web.AuctionSlice.{BidEvent, AuctionState}

pub record PastBid : Type 0 where
  pub id : String
  pub bidder_id : String
  pub amount : ℕ
  pub block_timestamp : ℕ

pub record PastAuction : Type 0 where
  pub id : ℕ
  pub amount : ℕ
  pub bidder_id : Option String
  pub start_time : ℕ
  pub end_time : ℕ
  pub bids : List PastBid

id_or_empty : Option String → String
id_or_empty none = ""
id_or_empty (some id) = id

redux_safe_bid : ℕ → PastBid → BidEvent
redux_safe_bid noun_id bid = record {
  noun_id = noun_id;
  sender = bid.bidder_id;
  value = bid.amount;
  extended = false;
  transaction_hash = bid.id;
  timestamp = bid.block_timestamp;
}

redux_safe_auction : PastAuction → AuctionState
unfolding id_or_empty redux_safe_bid
redux_safe_auction auction = record {
  active_auction = some (record {
    amount = auction.amount;
    bidder = id_or_empty auction.bidder_id;
    start_time = auction.start_time;
    end_time = auction.end_time;
    noun_id = auction.id;
    settled = false;
  });
  bids = map (redux_safe_bid auction.id) auction.bids;
}

-- No list has a negative length.
unfoldable pub redux_safe_past_auctions : List PastAuction → List AuctionState
unfolding redux_safe_auction
redux_safe_past_auctions auctions = map redux_safe_auction auctions

pub record PastAuctionsState : Type 0 where
  pub past_auctions : List AuctionState

unfoldable pub add_past_auctions : List PastAuction → PastAuctionsState → PastAuctionsState
add_past_auctions payload state = record state { past_auctions = redux_safe_past_auctions payload }
