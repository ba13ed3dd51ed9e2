-- ===== src/Web/Displayed.antt =====
-- wrappers/onDisplayAuction.ts and utils/nounderNoun.ts: the auction that a page shows. The serialization
-- of numbers is left out.
pub mod Shown
use lilnouns_monorepo.Base.{
  ℕ, ◌+◌, ◌%◌, ◌==◌, ltb, Bool, true, false, ◌||◌, Option, none, some, List, [], ◌∷◌, if◌then◌else◌,
}
use lilnouns_monorepo.Web.AuctionSlice.{IAuction, BidEvent, AuctionState}

unfoldable pub is_nounder_noun : ℕ → Bool
is_nounder_noun noun_id = noun_id % 10 == 0 || noun_id == 0

unfoldable pub is_nouns_dao_noun : ℕ → Bool
is_nouns_dao_noun noun_id = noun_id % 10 == 1 || noun_id == 1

empty_nounder_auction : ℕ → IAuction
empty_nounder_auction on_display_auction_id = record {
  amount = 0;
  bidder = "";
  start_time = 0;
  end_time = 0;
  noun_id = on_display_auction_id;
  settled = false;
}

is_on : ℕ → Option IAuction → Bool
is_on id none = false
is_on id (some a) = a.noun_id == id

-- The state of the first past auction on a noun. `findAuction` reads the id of each active auction, which
-- a past auction always has.
unfoldable pub find_past : ℕ → List AuctionState → Option AuctionState
unfolding is_on
find_past id [] = none
find_past id (s ∷ past) = if is_on id s.active_auction then some s else find_past id past

unfoldable pub active_of : Option AuctionState → Option IAuction
active_of none = none
active_of (some s) = s.active_auction

start_with : Option IAuction → IAuction → IAuction
start_with none auction = auction
start_with (some above) auction = record auction { start_time = above.start_time }

unfoldable pub generate_empty_nounder_auction : ℕ → List AuctionState → IAuction
unfolding empty_nounder_auction active_of start_with
generate_empty_nounder_auction noun_id past =
    let distance : ℕ = if is_nounder_noun noun_id then 2 else 1 in
    start_with (active_of (find_past (noun_id + distance) past)) (empty_nounder_auction noun_id)

deserialize_auction : IAuction → IAuction
deserialize_auction auction = record auction { settled = false }

deserialized : Option IAuction → Option IAuction
unfolding deserialize_auction
deserialized none = none
deserialized (some a) = some (deserialize_auction a)

auction_of : ℕ → IAuction → List AuctionState → Option IAuction
unfolding active_of deserialized
auction_of n current past =
    if n == current.noun_id
    then some (deserialize_auction current)
    else if is_nounder_noun n || is_nouns_dao_noun n
    then some (deserialize_auction (generate_empty_nounder_auction n past))
    else deserialized (active_of (find_past n past))

-- The noun on display, the active auction and the past ones.
unfoldable pub use_on_display_auction :
    Option ℕ → Option IAuction → List AuctionState → Option IAuction
unfolding auction_of
use_on_display_auction none current past = none
use_on_display_auction (some n) none past = none
use_on_display_auction (some n) (some current) past = auction_of n current past

-- `Array.sort`, which is stable, with the latest first.
insert_bid : BidEvent → List BidEvent → List BidEvent
insert_bid b [] = b ∷ []
insert_bid b (c ∷ cs) = if ltb b.timestamp c.timestamp then c ∷ insert_bid b cs else b ∷ c ∷ cs

unfoldable pub deserialize_bids : List BidEvent → List BidEvent
unfolding insert_bid
deserialize_bids [] = []
deserialize_bids (b ∷ bs) = insert_bid b (deserialize_bids bs)

is_number : Option ℕ → ℕ → Bool
is_number none n = false
is_number (some m) n = m == n

bids_of : Option AuctionState → Option (List BidEvent)
bids_of none = none
bids_of (some s) = some (deserialize_bids s.bids)

-- The last noun that was on auction, the bids of the active auction and the past auctions.
unfoldable pub use_auction_bids :
    Option ℕ → List BidEvent → List AuctionState → ℕ → Option (List BidEvent)
unfolding is_number bids_of
use_auction_bids last bids past noun_id =
    if is_number last noun_id
    then some (deserialize_bids bids)
    else bids_of (find_past noun_id past)
