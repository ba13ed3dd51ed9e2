-- ===== src/Subgraph/Auction/Bids.antt =====
-- What one bid writes.
use lilnouns_monorepo.Base.{String, ◌≡◌, refl, str_eq, if◌then◌else◌, none, some, [], ◌∷◌, ◌++◌}
use lilnouns_monorepo.Base.Table.{load, IsKeyed, load-save}
use lilnouns_monorepo.Subgraph.Host.{GraphTs}
use lilnouns_monorepo.Subgraph.Entities.{Account, Auction, Bid}
use lilnouns_monorepo.Subgraph.Events.{AuctionBid}
use lilnouns_monorepo.Subgraph.Store.{Store, exec, ◌>>=◌}
use lilnouns_monorepo.Subgraph.Helpers.Found.{account_of-id, get_or_create_account_lem}
use lilnouns_monorepo.Subgraph.Auction.{or_log, handle_auction_bid}

module _ (g : GraphTs) (s : Store) (e : AuctionBid) where
  abbrev after : Store
  after = exec (handle_auction_bid g e) s

  -- The bid that the event describes, in the auction that stands under its noun.
  abbrev pub bid_of : Auction → Bid
  bid_of a = record {
    id = g.to_hex e.at.hash;
    noun = a.noun;
    amount = e.value;
    bidder = g.to_hex e.sender;
    block_number = e.at.number;
    tx_index = e.at.index;
    auction = a.id;
    block_timestamp = e.at.timestamp;
  }

  -- In a store whose accounts stand under their ids and whose auctions include the bid's, the bid is
  -- stored under the transaction's hash with the sender, the value and the auction; every other bid
  -- is as before, and no error is logged.
  pub bid_recorded :
      (a : Auction) (j : String)
      → IsKeyed Account.id s.accounts
      → load (g.to_string e.noun_id) s.auctions ≡ some a
      → (load j after.bids
          ≡ (if str_eq (g.to_hex e.at.hash) j then some (bid_of a) else load j s.bids))
        × (after.errors ≡ s.errors)
  unfolding handle_auction_bid
  bid_recorded a j k h =
      rw (get_or_create_account_lem, exec, ◌>>=◌)
        (rw (h, or_log, account_of-id (g.to_hex e.sender) s k) (load-save j _ _ s.bids, refl))

  -- A bid on an auction that is not stored writes no bid and no auction, and logs one error.
  pub bid_unknown :
      load (g.to_string e.noun_id) s.auctions ≡ none
      → (after.bids ≡ s.bids)
        × (after.auctions ≡ s.auctions)
        × (after.errors
            ≡ s.errors
              ++ (record {
                message = "[handleAuctionBid] Auction not found for Noun #{}. Hash: {}";
                args = g.to_string e.noun_id ∷ g.to_hex e.at.hash ∷ [];
              })
                ∷ [])
  unfolding handle_auction_bid
  bid_unknown h = rw (get_or_create_account_lem, exec, ◌>>=◌) (rw (h, or_log) (refl, refl, refl))
