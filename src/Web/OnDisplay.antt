-- ===== src/Web/OnDisplay.antt =====
-- state/slices/onDisplayAuction.ts: which auction is shown.
pub mod Steps
use lilnouns_monorepo.Base.{
  ℕ, zero, suc, Bool, true, false, ◌==◌, Option, some, none, if◌then◌else◌,
}

pub record OnDisplayAuctionState : Type 0 where
  pub last_auction_noun_id : Option ℕ
  pub last_auction_start_time : Option ℕ
  pub on_display_auction_noun_id : Option ℕ
  pub on_display_auction_start_time : Option ℕ

unfoldable pub set_last_auction_noun_id : ℕ → OnDisplayAuctionState → OnDisplayAuctionState
set_last_auction_noun_id n state = record state { last_auction_noun_id = some n }

unfoldable pub set_last_auction_start_time : ℕ → OnDisplayAuctionState → OnDisplayAuctionState
set_last_auction_start_time n state = record state { last_auction_start_time = some n }

unfoldable pub set_on_display_auction_noun_id : ℕ → OnDisplayAuctionState → OnDisplayAuctionState
set_on_display_auction_noun_id n state = record state { on_display_auction_noun_id = some n }

unfoldable pub set_on_display_auction_start_time : ℕ → OnDisplayAuctionState → OnDisplayAuctionState
set_on_display_auction_start_time n state = record state { on_display_auction_start_time = some n }

-- `undefined` and 0 are both falsy.
unfoldable pub set_prev_on_display_auction_noun_id : OnDisplayAuctionState → OnDisplayAuctionState
set_prev_on_display_auction_noun_id state = elim state.on_display_auction_noun_id [
  | none ↦ state
  | some n ↦ elim n [ zero ↦ state | suc m ↦ record state { on_display_auction_noun_id = some m } ]
]

-- `last === n`
abbrev pub is_last : Option ℕ → ℕ → Bool
is_last none n = false
is_last (some m) n = m == n

unfoldable pub set_next_on_display_auction_noun_id : OnDisplayAuctionState → OnDisplayAuctionState
set_next_on_display_auction_noun_id state = elim state.on_display_auction_noun_id [
  | none ↦ state
  | some n ↦
      if is_last state.last_auction_noun_id n
      then state
      else record state { on_display_auction_noun_id = some (suc n) }
]
