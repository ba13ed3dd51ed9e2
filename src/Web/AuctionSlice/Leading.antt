-- ===== src/Web/AuctionSlice/Leading.antt =====
-- The active auction shows the leading bid.
use lilnouns_monorepo.Base.{
  ◌≤◌, ◌≡◌, refl, ap, false, Bool-cases, inl, inr, ◌⊎◌, ◌==◌, ltb, Option, some, none, List, [],
  ◌∷◌, All, arith,
}
use lilnouns_monorepo.Web.AuctionSlice.{
  IAuction, AuctionCreateEvent, BidEvent, AuctionExtendedEvent, AuctionState, max_bid, contains_bid,
  set_active_auction, append_bid, set_auction_extended,
}

abbrev pub Has {ℓ} : {A : Type ℓ} → (A → Type 0) → List A → Type 0
Has P [] = ⊥
Has P (x ∷ xs) = P x ⊎ Has P xs

-- No two bids have one transaction.
abbrev pub AreDistinct : List BidEvent → Type 0
AreDistinct [] = Unit
AreDistinct (b ∷ bs) = (contains_bid bs b ≡ false) × AreDistinct bs

-- With bids, the auction's amount and bidder are those of one of them.
abbrev pub IsLed : IAuction → List BidEvent → Type 0
IsLed a [] = Unit
IsLed a (b ∷ bs) = Has (λ c. (c.value ≡ a.amount) × (c.sender ≡ a.bidder)) (b ∷ bs)

-- The bids of the active auction: on its noun, one per transaction, none above its amount, which is
-- that of one of them.
abbrev pub IsLeadingFor : Option IAuction → List BidEvent → Type 0
IsLeadingFor none bs = Unit
IsLeadingFor (some a) bs =
    All (λ b. b.noun_id ≡ a.noun_id) bs
    × AreDistinct bs
    × All (λ b. b.value ≤ a.amount) bs
    × IsLed a bs

abbrev pub IsLeading : AuctionState → Type 0
IsLeading s = IsLeadingFor s.active_auction s.bids

-- What the reduction returns is none below the bids, and is one of them.
max_bid-first :
    (p : BidEvent) (bs : List BidEvent) (m : BidEvent) → max_bid p bs ≡ m → p.value ≤ m.value
unfolding max_bid
max_bid-first p [] m = λ e. let v = ap (λ b. b.value) e in omega (arith, v)
max_bid-first p (b ∷ bs) m = elim (Bool-cases (ltb b.value p.value)) [
  | inl h ↦ rw (max_bid, h) (λ e. max_bid-first p bs m e)
  | inr h ↦ rw (max_bid, h) (λ e. let k = max_bid-first b bs m e in ground (arith, k))
]

max_bid-All :
    (p : BidEvent) (bs : List BidEvent) (m : BidEvent)
    → max_bid p bs ≡ m
    → All (λ b. b.value ≤ m.value) bs
unfolding max_bid
max_bid-All p [] m = λ e. tt
max_bid-All p (b ∷ bs) m = elim (Bool-cases (ltb b.value p.value)) [
  | inl h ↦
      rw (max_bid, h)
        (λ e. let k = max_bid-first p bs m e in (ground (arith, k), max_bid-All p bs m e))
  | inr h ↦ rw (max_bid, h) (λ e. (max_bid-first b bs m e, max_bid-All b bs m e))
]

max_bid-Has :
    (p : BidEvent) (bs : List BidEvent) (m : BidEvent)
    → max_bid p bs ≡ m
    → Has (λ c. (c.value ≡ m.value) × (c.sender ≡ m.sender)) (p ∷ bs)
unfolding max_bid
max_bid-Has p [] m = λ e. inl (ap (λ b. b.value) e, ap (λ b. b.sender) e)
max_bid-Has p (b ∷ bs) m = elim (Bool-cases (ltb b.value p.value)) [
  | inl h ↦
      rw (max_bid, h) (λ e. elim (max_bid-Has p bs m e) [ inl k ↦ inl k | inr k ↦ inr (inr k) ])
  | inr h ↦ rw (max_bid, h) (λ e. inr (max_bid-Has b bs m e))
]

append_bid-IsLeading : (e : BidEvent) (s : AuctionState) → IsLeading s → IsLeading (append_bid e s)
unfolding append_bid
append_bid-IsLeading e s = by_active s.active_auction s.bids
  where
    by_active :
        (o : Option IAuction) (bs : List BidEvent)
        → IsLeadingFor o bs
        → IsLeading (append_bid e (record { active_auction = o; bids = bs }))
    by_active none bs h = tt
    by_active (some a) bs h = elim (Bool-cases (a.noun_id == e.noun_id)) [
      | inr other ↦ rw other h
      | inl same ↦ rw same (elim (Bool-cases (contains_bid bs e)) [
        | inl known ↦ rw known h
        | inr new ↦ rw new (
          (ground arith, h.0),
          (new, h.1),
          (max_bid-first e bs _ refl, max_bid-All e bs _ refl),
          max_bid-Has e bs _ refl,
        )
      ])
    ]

set_auction_extended-IsLeading :
    (e : AuctionExtendedEvent) (s : AuctionState)
    → IsLeading s
    → IsLeading (set_auction_extended e s)
unfolding set_auction_extended
set_auction_extended-IsLeading e s = by_active s.active_auction s.bids
  where
    led :
        (a : IAuction) (bs : List BidEvent)
        → IsLed a bs
        → IsLed (record a { end_time = e.end_time }) bs
    led a [] h = tt
    led a (b ∷ bs) h = h

    by_active :
        (o : Option IAuction) (bs : List BidEvent)
        → IsLeadingFor o bs
        → IsLeading (set_auction_extended e (record { active_auction = o; bids = bs }))
    by_active none bs h = tt
    by_active (some a) bs h = elim (Bool-cases (a.noun_id == e.noun_id)) [
      | inr other ↦ rw other h
      | inl same ↦ rw same (h.0, h.1, h.2, led a bs h.3)
    ]

pub data AuctionAction : Type 0 where
  opened : AuctionCreateEvent → AuctionAction
  bid : BidEvent → AuctionAction
  extended : AuctionExtendedEvent → AuctionAction

unfoldable pub run : List AuctionAction → AuctionState → AuctionState
run [] s = s
run (opened e ∷ es) s = run es (set_active_auction e s)
run (bid e ∷ es) s = run es (append_bid e s)
run (extended e ∷ es) s = run es (set_auction_extended e s)

-- Over any sequence of auctions that are opened, bids, also repeated or late ones, and extensions,
-- the bids that are kept are on the active auction's noun, one per transaction and none above the
-- auction's amount; and the amount and the bidder are those of one of the bids, if there is one.
pub run-IsLeading :
    (es : List AuctionAction) (s : AuctionState) → IsLeading s → IsLeading (run es s)
unfolding run set_active_auction
run-IsLeading [] s h = h
run-IsLeading (opened e ∷ es) s h = run-IsLeading es _ (tt, tt, tt, tt)
run-IsLeading (bid e ∷ es) s h = run-IsLeading es _ (append_bid-IsLeading e s h)
run-IsLeading (extended e ∷ es) s h = run-IsLeading es _ (set_auction_extended-IsLeading e s h)
