-- ===== src/Web/Displayed/Shown.antt =====
-- What a page shows is on the noun that is on display.
use lilnouns_monorepo.Base.{
  ℕ, ◌==◌, ◌≡◌, refl, true, false, ◌||◌, Option, none, some, List, [], ◌∷◌, Bool-cases, inl, inr,
  arith,
}
use lilnouns_monorepo.Web.AuctionSlice.{IAuction, AuctionState}
use lilnouns_monorepo.Web.Displayed.{
  is_nounder_noun, is_nouns_dao_noun, empty_nounder_auction, is_on, find_past, active_of,
  start_with, generate_empty_nounder_auction, deserialize_auction, deserialized, auction_of,
  use_on_display_auction,
}

on_active :
    (n : ℕ) (o : Option IAuction) (a : IAuction)
    → is_on n o ≡ true
    → deserialized o ≡ some a
    → (a.noun_id ≡ n) × (a.settled ≡ false)
unfolding deserialized deserialize_auction is_on
on_active n none a e h = cc
on_active n (some b) a e h = (ground arith, ground arith)

found_on :
    (n : ℕ) (past : List AuctionState) (a : IAuction)
    → deserialized (active_of (find_past n past)) ≡ some a
    → (a.noun_id ≡ n) × (a.settled ≡ false)
unfolding find_past deserialized active_of
found_on n [] a = λ h. cc
found_on n (s ∷ past) a = elim (Bool-cases (is_on n s.active_auction)) [
  | inl e ↦ rw e (λ h. on_active n s.active_auction a e h)
  | inr e ↦ rw e (λ h. found_on n past a h)
]

start_with_noun : (o : Option IAuction) (a : IAuction) → (start_with o a).noun_id ≡ a.noun_id
unfolding start_with
start_with_noun none a = refl
start_with_noun (some b) a = refl

generated_noun :
    (n : ℕ) (past : List AuctionState) → (generate_empty_nounder_auction n past).noun_id ≡ n
unfolding generate_empty_nounder_auction empty_nounder_auction
generated_noun n past = start_with_noun _ (empty_nounder_auction n)

auction_of_noun :
    (n : ℕ) (current : IAuction) (past : List AuctionState) (a : IAuction)
    → auction_of n current past ≡ some a
    → (a.noun_id ≡ n) × (a.settled ≡ false)
unfolding auction_of deserialize_auction
auction_of_noun n current past a = elim (Bool-cases (n == current.noun_id)) [
  | inl e ↦ rw e (λ h. (ground arith, ground arith))
  | inr e ↦ elim (Bool-cases (is_nounder_noun n || is_nouns_dao_noun n)) [
    | inl g ↦ rw (e, g) (λ h. let k = generated_noun n past in (ground (arith, k), ground arith))
    | inr g ↦ rw (e, g) (λ h. found_on n past a h)
  ]
]

-- Whatever the active auction and the past ones are, the auction that a page shows is on the noun on
-- display and not settled, be it the active one, a past one, or the empty one of a noun that was never
-- on auction.
pub shown_noun :
    (on_display : Option ℕ) (current : Option IAuction) (past : List AuctionState) (n : ℕ)
    (a : IAuction)
    → on_display ≡ some n
    → use_on_display_auction on_display current past ≡ some a
    → (a.noun_id ≡ n) × (a.settled ≡ false)
unfolding use_on_display_auction
shown_noun none current past n a e h = cc
shown_noun (some m) none past n a e h = cc
shown_noun (some m) (some c) past n a e h =
    let r = auction_of_noun m c past a h in (ground (arith, r.0), r.1)
