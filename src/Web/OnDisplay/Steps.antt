-- ===== src/Web/OnDisplay/Steps.antt =====
-- The steps to the previous and to the next auction.
use lilnouns_monorepo.Base.{
  ℕ, zero, suc, ◌≤◌, ◌≡◌, refl, false, Bool-cases, inl, inr, ◌==◌, Option, some, List, [], ◌∷◌,
  arith,
}
use lilnouns_monorepo.Web.OnDisplay.{
  OnDisplayAuctionState, set_prev_on_display_auction_noun_id, set_next_on_display_auction_noun_id,
}

pub data Step : Type 0 where
  prev next : Step

unfoldable pub go : List Step → OnDisplayAuctionState → OnDisplayAuctionState
go [] s = s
go (prev ∷ steps) s = go steps (set_prev_on_display_auction_noun_id s)
go (next ∷ steps) s = go steps (set_next_on_display_auction_noun_id s)

module _ (last : ℕ) (t u : Option ℕ) where
  -- The state that shows a noun.
  abbrev pub showing : ℕ → OnDisplayAuctionState
  showing n = record {
    last_auction_noun_id = some last;
    last_auction_start_time = t;
    on_display_auction_noun_id = some n;
    on_display_auction_start_time = u;
  }

  -- From a noun that is not after the last auction's, any steps lead to such a noun, and change
  -- nothing else.
  pub go-showing :
      (steps : List Step) (n : ℕ)
      → n ≤ last
      → (m : ℕ) × (go steps (showing n) ≡ showing m) × (m ≤ last)
  unfolding go set_prev_on_display_auction_noun_id set_next_on_display_auction_noun_id
  go-showing [] n h = (n, refl, h)
  go-showing (prev ∷ steps) zero h = go-showing steps zero h
  go-showing (prev ∷ steps) (suc n) h = go-showing steps n (omega arith)
  go-showing (next ∷ steps) n h = elim (Bool-cases (last == n)) [
    | inl e ↦ rw e (go-showing steps n h)
    | inr e ↦ rw e (go-showing steps (suc n) (ground arith))
  ]

  -- A step to the next auction, from one that is before the last, is undone by a step back.
  pub next-prev : (n : ℕ) → suc n ≤ last → go (next ∷ prev ∷ []) (showing n) ≡ showing n
  unfolding go set_prev_on_display_auction_noun_id set_next_on_display_auction_noun_id
  next-prev n h = let e : (last == n) ≡ false = ground arith in rw e
