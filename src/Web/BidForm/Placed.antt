-- ===== src/Web/BidForm/Placed.antt =====
-- Which bids the form sends.
use lilnouns_monorepo.Base.{
  ℕ, ◌+◌, ◌*◌, ◌/◌, ◌≤◌, ◌<◌, ltb, leb, Bool, ◌≡◌, ◌≢◌, none, ◌⊎◌, inl, inr, Bool-cases, Option,
  some, false, arith,
}
use lilnouns_monorepo.Web.BidForm.{
  placed, warning_min, warning_value, compute_minimum_next_bid, compute_fat_finger_next_bid,
  send_bid, is_fat_finger, place_value, place_bid_handler,
}

-- The amount with the increment, which the contract rounds down.
abbrev pub raised : ℕ → ℕ → ℕ
raised amount percentage = amount + (amount * percentage) / 100

-- What the auction house asks of a bid: at least its reserve price, and the amount raised by the increment.
abbrev pub IsEnough : ℕ → ℕ → ℕ → ℕ → Type 0
IsEnough reserve_price amount percentage value =
    (reserve_price ≤ value) × (raised amount percentage ≤ value)

-- The estimate of the gas rejects for a value below the reserve price, for which the contract reverts.
abbrev pub RejectsBelow : ℕ → (ℕ → Option ℕ) → Type 0
RejectsBelow reserve_price estimate_gas =
    (value : ℕ) → value < reserve_price → estimate_gas value ≡ none

-- The least next bid is the raised amount, or one wei more where that was rounded down.
minimum_bounds :
    (amount percentage : ℕ)
    → (raised amount percentage ≤ compute_minimum_next_bid amount (some percentage))
      × (compute_minimum_next_bid amount (some percentage) ≤ raised amount percentage + 1)
unfolding compute_minimum_next_bid
minimum_bounds amount percentage =
    let product : amount * (100 + percentage) ≡ amount * 100 + amount * percentage = grind arith in
    rw product (omega arith)

send_bid-placed :
    (is_large : Bool) (value v g : ℕ) (gas : Option ℕ)
    → send_bid is_large value gas ≡ placed v g
    → (v ≡ value) × (is_large ≡ false) × (gas ≢ none)
unfolding send_bid
send_bid-placed is_large value v g none h = absurd (cc)
send_bid-placed is_large value v g (some n) h = (ground arith, ground arith, λ e. cc)

not_fat_finger :
    (amount percentage value : ℕ)
    → is_fat_finger amount (some percentage) value ≡ false
    → (value < amount * 10)
      ⊎ ((value < warning_value)
          ⊎ (compute_minimum_next_bid amount (some percentage) ≤ warning_min))
unfolding is_fat_finger compute_fat_finger_next_bid
not_fat_finger amount percentage value h = elim (Bool-cases (leb (amount * 10) value)) [
  | inr less ↦ inl (ground arith)
  | inl more ↦ elim (Bool-cases (leb warning_value value)) [
    | inr less ↦ inr (inl (ground arith))
    | inl large ↦ inr (inr (ground arith))
  ]
]

place_value-placed :
    (amount percentage : ℕ) (estimate_gas : ℕ → Option ℕ) (value v g : ℕ)
    → place_value amount (some percentage) estimate_gas value ≡ placed v g
    → (v ≡ value)
      × (compute_minimum_next_bid amount (some percentage) ≤ value)
      × (is_fat_finger amount (some percentage) value ≡ false)
      × (estimate_gas value ≢ none)
unfolding place_value
place_value-placed amount percentage estimate_gas value v g h =
    let minimum = compute_minimum_next_bid amount (some percentage) in
    elim (Bool-cases (ltb value minimum)) [
      | inl less ↦ absurd (ground arith)
      | inr enough ↦
          let (same, small, estimated) =
            send_bid-placed (is_fat_finger amount (some percentage) value) value v g
              (estimate_gas value) (ground arith) in
          (same, ground arith, small, estimated)
    ]

reserve_reached :
    (reserve_price : ℕ) (estimate_gas : ℕ → Option ℕ) (value : ℕ)
    → RejectsBelow reserve_price estimate_gas
    → estimate_gas value ≢ none
    → reserve_price ≤ value
reserve_reached reserve_price estimate_gas value rejects estimated =
    elim (Bool-cases (ltb value reserve_price)) [
      | inl less ↦ absurd (estimated (rejects value (ground arith)))
      | inr enough ↦ ground arith
    ]

-- Where the estimate of the gas rejects for a value below the reserve price, a bid that is placed without a
-- warning, while the increment is known, is the value of the form. It is at least the reserve price and the
-- amount raised by the increment, as the auction house asks; and it is below ten times the amount, or
-- below 1.5 ETH, unless the least next bid is at most 0.15 ETH.
pub place_bid_handler-placed :
    (reserve_price amount percentage : ℕ) (estimate_gas : ℕ → Option ℕ) (value v g : ℕ)
    → RejectsBelow reserve_price estimate_gas
    → place_bid_handler (some amount) (some percentage) estimate_gas (some value) ≡ placed v g
    → (v ≡ value)
      × IsEnough reserve_price amount percentage v
      × ((v < amount * 10)
          ⊎ ((v < warning_value)
              ⊎ (compute_minimum_next_bid amount (some percentage) ≤ warning_min)))
unfolding place_bid_handler
place_bid_handler-placed reserve_price amount percentage estimate_gas value v g rejects h =
    let (same, enough, small, estimated) =
      place_value-placed amount percentage estimate_gas value v g h in
    let (least, most) = minimum_bounds amount percentage in
    (
      same,
      (rw same (reserve_reached reserve_price estimate_gas value rejects estimated), omega arith),
      rw same (not_fat_finger amount percentage value small),
    )
