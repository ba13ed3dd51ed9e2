-- ===== src/Web/BidForm.antt =====
-- components/Bid/index.tsx: the least next bid, and what the form does with a bid. Amounts are in wei. The
-- increment is a whole number of percent, as the contract keeps it, so that its hundredth part is exact.
pub mod Placed
use lilnouns_monorepo.Base.{
  ℕ, ◌+◌, ◌*◌, ◌/◌, ltb, leb, Bool, true, false, ◌&&◌, Option, none, some, if◌then◌else◌,
}

-- The product is rounded up to a whole number.
unfoldable pub compute_minimum_next_bid : ℕ → Option ℕ → ℕ
compute_minimum_next_bid current_bid none = 0
compute_minimum_next_bid current_bid (some percentage) =
    (current_bid * (100 + percentage) + 99) / 100

unfoldable pub compute_fat_finger_next_bid : ℕ → Option ℕ → ℕ
compute_fat_finger_next_bid current_bid none = 0
compute_fat_finger_next_bid current_bid (some percentage) = current_bid * 10

-- `ignored` where no auction or no text is there; `failed` where the estimate of the gas rejects.
pub data BidOutcome : Type 0 where
  ignored : BidOutcome
  insufficient : BidOutcome
  failed : BidOutcome
  warned : ℕ → ℕ → BidOutcome
  placed : ℕ → ℕ → BidOutcome

abbrev pub gas_pad : ℕ
gas_pad = 10000

-- 0.15 and 1.5 ETH
abbrev pub warning_min : ℕ
warning_min = 150000000000000000

abbrev pub warning_value : ℕ
warning_value = 1500000000000000000

send_bid : Bool → ℕ → Option ℕ → BidOutcome
send_bid is_large value none = failed
send_bid is_large value (some gas) =
    if is_large then warned value (gas + gas_pad) else placed value (gas + gas_pad)

is_fat_finger : ℕ → Option ℕ → ℕ → Bool
is_fat_finger amount percentage value =
    ltb warning_min (compute_minimum_next_bid amount percentage)
    && leb warning_value value
    && leb (compute_fat_finger_next_bid amount percentage) value

place_value : ℕ → Option ℕ → (ℕ → Option ℕ) → ℕ → BidOutcome
unfolding send_bid is_fat_finger
place_value amount percentage estimate_gas value =
    if ltb value (compute_minimum_next_bid amount percentage)
    then insufficient
    else send_bid (is_fat_finger amount percentage value) value (estimate_gas value)

-- The amount of the auction, the increment if it is known, and the value of the text of the form.
unfoldable pub place_bid_handler : Option ℕ → Option ℕ → (ℕ → Option ℕ) → Option ℕ → BidOutcome
unfolding place_value
place_bid_handler none percentage estimate_gas value = ignored
place_bid_handler (some amount) percentage estimate_gas none = ignored
place_bid_handler (some amount) percentage estimate_gas (some value) =
    place_value amount percentage estimate_gas value
