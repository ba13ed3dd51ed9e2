-- ===== src/Web/BidOrder.antt =====
-- utils/compareBids.ts and utils/bidSorter.ts: the orders of bids. The serialization of numbers is left
-- out.
use lilnouns_monorepo.Base.{ℕ, ◌+◌, ◌*◌, ◌<◌, ◌⊎◌, ◌≡◌, inl, inr, arith, ltb, Bool-cases}
use lilnouns_monorepo.Base.Int.{ℤ, sub_ℕ, ◌<ℤ◌, pos}

pub record PlacedBid : Type 0 where
  pub block_number : ℕ
  pub block_timestamp : ℕ
  pub tx_index : ℕ

generate_bid_score : PlacedBid → ℕ
generate_bid_score bid = bid.block_number * 1000000 + bid.tx_index

unfoldable pub compare_bids : PlacedBid → PlacedBid → ℤ
unfolding generate_bid_score
compare_bids a b = sub_ℕ (generate_bid_score a) (generate_bid_score b)

unfoldable pub compare_bids_chronologically : PlacedBid → PlacedBid → ℤ
compare_bids_chronologically a b =
    sub_ℕ (b.block_timestamp * 1000000 + b.tx_index) (a.block_timestamp * 1000000 + a.tx_index)

sub_ℕ-neg : (m n : ℕ) → sub_ℕ m n <ℤ pos 0 → m < n
sub_ℕ-neg m n h = ground arith

-- With less than a million transactions in a block, an earlier bid is one in an earlier block, or
-- before it in the same block.
compare_bids_lex :
    (a b : PlacedBid)
    → b.tx_index < 1000000
    → compare_bids a b <ℤ pos 0
    → (a.block_number < b.block_number)
      ⊎ ((a.block_number ≡ b.block_number) × (a.tx_index < b.tx_index))
unfolding compare_bids generate_bid_score
compare_bids_lex a b hb h =
    let lt = sub_ℕ-neg (generate_bid_score a) (generate_bid_score b) h in
    elim (Bool-cases (ltb a.block_number b.block_number)) [
      | inl e ↦ inl (ground arith)
      | inr e ↦ inr (ground (arith, lt), ground (arith, lt))
    ]
