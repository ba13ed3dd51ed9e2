-- ===== src/Web/AuctionSlice.antt =====
-- state/slices/auction.ts: the state of the current auction. A `BigNumber` of an event is an unsigned
-- number of a contract; its serialization by `toJSON` is left out.
pub mod Leading
use lilnouns_monorepo.Base.{
  ℕ, Bool, true, false, not, ◌||◌, ◌==◌, ltb, str_eq, Option, some, none, String, List, [], ◌∷◌,
  if◌then◌else◌,
}

pub record IAuction : Type 0 where
  pub amount : ℕ
  pub bidder : String
  pub start_time : ℕ
  pub end_time : ℕ
  pub noun_id : ℕ
  pub settled : Bool

pub record AuctionCreateEvent : Type 0 where
  pub noun_id : ℕ
  pub start_time : ℕ
  pub end_time : ℕ
  pub settled : Bool

pub record BidEvent : Type 0 where
  pub noun_id : ℕ
  pub sender : String
  pub value : ℕ
  pub extended : Bool
  pub transaction_hash : String
  pub timestamp : ℕ

pub record AuctionSettledEvent : Type 0 where
  pub noun_id : ℕ
  pub winner : String
  pub amount : ℕ

pub record AuctionExtendedEvent : Type 0 where
  pub noun_id : ℕ
  pub end_time : ℕ

pub record AuctionState : Type 0 where
  pub active_auction : Option IAuction
  pub bids : List BidEvent

abbrev pub initial_state : AuctionState
initial_state = record { active_auction = none; bids = [] }

-- `bids.reduce(...)` from the first bid on
unfoldable pub max_bid : BidEvent → List BidEvent → BidEvent
max_bid prev [] = prev
max_bid prev (current ∷ bids) =
    max_bid (if ltb current.value prev.value then prev else current) bids

unfoldable pub contains_bid : List BidEvent → BidEvent → Bool
contains_bid [] e = false
contains_bid (b ∷ bids) e = str_eq b.transaction_hash e.transaction_hash || contains_bid bids e

abbrev pub redux_safe_new_auction : AuctionCreateEvent → IAuction
redux_safe_new_auction auction = record {
  amount = 0;
  bidder = "";
  start_time = auction.start_time;
  end_time = auction.end_time;
  noun_id = auction.noun_id;
  settled = false;
}

unfoldable pub set_active_auction : AuctionCreateEvent → AuctionState → AuctionState
set_active_auction e state = record { active_auction = some (redux_safe_new_auction e); bids = [] }

unfoldable pub set_full_auction : IAuction → AuctionState → AuctionState
set_full_auction auction state = record state { active_auction = some auction }

-- `if (!(state.activeAuction && auctionsEqual(state.activeAuction, e))) return;` and the rest
abbrev pub if_active : ℕ → (IAuction → AuctionState) → AuctionState → AuctionState
if_active noun_id rest state = elim state.active_auction [
  | none ↦ state
  | some a ↦ if a.noun_id == noun_id then rest a else state
]

unfoldable pub append_bid : BidEvent → AuctionState → AuctionState
unfolding contains_bid max_bid
append_bid e state =
    if_active e.noun_id
      (λ a.
        if contains_bid state.bids e
        then state
        else (let m = max_bid e state.bids in
            record {
              active_auction = some (record a { amount = m.value; bidder = m.sender });
              bids = e ∷ state.bids;
            }))
      state

unfoldable pub set_auction_settled : AuctionSettledEvent → AuctionState → AuctionState
set_auction_settled e state =
    if_active e.noun_id
      (λ a. record state {
        active_auction = some (record a { settled = true; bidder = e.winner; amount = e.amount });
      })
      state

unfoldable pub set_auction_extended : AuctionExtendedEvent → AuctionState → AuctionState
set_auction_extended e state =
    if_active e.noun_id
      (λ a. record state { active_auction = some (record a { end_time = e.end_time }) }) state
