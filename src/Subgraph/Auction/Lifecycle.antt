-- ===== src/Subgraph/Auction/Lifecycle.antt =====
-- The life of one auction in the store, over any sequence of the auction house's events.
use lilnouns_monorepo.Base.{
  String, str_eq, ◌≡◌, true, false, Option, none, some, List, [], ◌∷◌, if◌then◌else◌, arith, eq_iff,
  Option-cases, Bool-cases, inl, inr,
}
use lilnouns_monorepo.Base.Int.{pos}
use lilnouns_monorepo.Base.Table.{Table, IsKeyed, load, save, load-save}
use lilnouns_monorepo.Subgraph.Host.{GraphTs}
use lilnouns_monorepo.Subgraph.Entities.{Account, Noun, Auction}
use lilnouns_monorepo.Subgraph.Events.{AuctionCreated, AuctionBid, AuctionExtended, AuctionSettled}
use lilnouns_monorepo.Subgraph.Store.{Store, M, ⊤, exec, ◌>>=◌}
use lilnouns_monorepo.Subgraph.Helpers.Found.{get_or_create_account_lem, account_of-id}
use lilnouns_monorepo.Subgraph.Auction.{
  handle_auction_created, handle_auction_bid, handle_auction_extended, handle_auction_settled,
}

pub data AuctionEvent : Type 0 where
  created : AuctionCreated → AuctionEvent
  bid : AuctionBid → AuctionEvent
  extended : AuctionExtended → AuctionEvent
  settled : AuctionSettled → AuctionEvent

-- Every stored auction and account stands under its own id.
pub record IsWellFormed (s : Store) : Type 0 where
  pub auctions_keyed : IsKeyed Auction.id s.auctions
  pub accounts_keyed : IsKeyed Account.id s.accounts

-- What the events of other auctions leave alone.
abbrev pub on :
    String → String → (Option Auction → Option Auction) → Option Auction → Option Auction
on id k f o = if str_eq id k then f o else o

abbrev pub update : (Auction → Auction) → Option Auction → Option Auction
update f none = none
update f (some a) = some (f a)

save_updates :
    (t : Table Auction) (id k : String) (a : Auction) (f : Auction → Auction)
    → load k t ≡ some a
    → (f a).id ≡ k
    → load id (save (f a).id (f a) t) ≡ on k id (update f) (load id t)
save_updates t id k a f h e =
    ground (arith, load-save id (f a).id (f a) t, eq_iff k id, eq_iff (f a).id id)

none_updates :
    (t : Table Auction) (id k : String) (f : Auction → Auction)
    → load k t ≡ none
    → load id t ≡ on k id (update f) (load id t)
none_updates t id k f h = elim (Bool-cases (str_eq k id)) [
  | inl same ↦ rw (same, ← (eq_iff k id).0 same, h)
  | inr other ↦ rw other
]

module _ (g : GraphTs) where
  unfoldable pub handle : AuctionEvent → M ⊤
  handle (created e) = handle_auction_created g e
  handle (bid e) = handle_auction_bid g e
  handle (extended e) = handle_auction_extended g e
  handle (settled e) = handle_auction_settled g e

  unfoldable pub run : List AuctionEvent → Store → Store
  unfolding handle
  run [] s = s
  run (e ∷ es) s = run es (exec (handle e) s)

  abbrev pub outbid : AuctionBid → Auction → Auction
  outbid e a = record a { amount = e.value; bidder = some (g.to_hex e.sender) }

  abbrev pub extend : AuctionExtended → Auction → Auction
  extend e a = record a { end_time = e.end_time }

  abbrev pub settle : Auction → Auction
  settle a = record a { settled = true }

  -- The auction that an event of creation opens, if its noun is known: a first one without a bidder, and
  -- a later one with the bidder that was stored, which the new entity leaves unset.
  abbrev pub opening : AuctionCreated → Noun → Option String → Auction
  opening e n bidder = record {
    id = g.to_string e.noun_id;
    noun = n.id;
    amount = pos 0;
    start_time = e.start_time;
    end_time = e.end_time;
    bidder = bidder;
    settled = false;
  }

  abbrev pub opened : AuctionCreated → Option Noun → Option Auction → Option Auction
  opened e none o = o
  opened e (some n) none = some (opening e n none)
  opened e (some n) (some a) = some (opening e n a.bidder)

  -- The specification: what one event makes of the auction of noun `id`.
  unfoldable pub next : Table Noun → String → AuctionEvent → Option Auction → Option Auction
  next nouns id (created e) =
      on (g.to_string e.noun_id) id (opened e (load (g.to_string e.noun_id) nouns))
  next nouns id (bid e) = on (g.to_string e.noun_id) id (update (outbid e))
  next nouns id (extended e) = on (g.to_string e.noun_id) id (update (extend e))
  next nouns id (settled e) = on (g.to_string e.noun_id) id (update settle)

  unfoldable pub life : Table Noun → String → List AuctionEvent → Option Auction → Option Auction
  unfolding next
  life nouns id [] o = o
  life nouns id (e ∷ es) o = life nouns id es (next nouns id e o)

  -- One event's step: the auction of noun `id` follows the specification.
  abbrev pub Steps : AuctionEvent → Store → String → Type 0
  Steps e s id = load id (exec (handle e) s).auctions ≡ next s.nouns id e (load id s.auctions)

  pub created_step : (e : AuctionCreated) (s : Store) (id : String) → Steps (created e) s id
  unfolding handle handle_auction_created next
  created_step e s id = elim (Option-cases (load (g.to_string e.noun_id) s.nouns)) [
    | inl h ↦ ground arith
    | inr (n, h) ↦ elim (Option-cases (load (g.to_string e.noun_id) s.auctions)) [
      | inl new ↦ ground (
        arith,
        load-save id (g.to_string e.noun_id) (opening e n none) s.auctions,
        eq_iff (g.to_string e.noun_id) id,
      )
      | inr (a, old) ↦ ground (
        arith,
        load-save id (g.to_string e.noun_id) (opening e n a.bidder) s.auctions,
        eq_iff (g.to_string e.noun_id) id,
      )
    ]
  ]

  module _ (s : Store) (id : String) (w : IsWellFormed s) where
    pub extended_step : (e : AuctionExtended) → Steps (extended e) s id
    unfolding handle handle_auction_extended next
    extended_step e = elim (Option-cases (load (g.to_string e.noun_id) s.auctions)) [
      | inl h ↦ ground (arith, none_updates s.auctions id _ (extend e) h)
      | inr (a, h) ↦
          ground (arith, save_updates s.auctions id _ a (extend e) h (w.auctions_keyed _ a h))
    ]

    pub settled_step : (e : AuctionSettled) → Steps (settled e) s id
    unfolding handle handle_auction_settled next
    settled_step e = elim (Option-cases (load (g.to_string e.noun_id) s.auctions)) [
      | inl h ↦ ground (arith, none_updates s.auctions id _ settle h)
      | inr (a, h) ↦
          ground (arith, save_updates s.auctions id _ a settle h (w.auctions_keyed _ a h))
    ]

    pub bid_step : (e : AuctionBid) → Steps (bid e) s id
    unfolding handle handle_auction_bid next
    bid_step e = elim (Option-cases (load (g.to_string e.noun_id) s.auctions)) [
      | inl h ↦
          rw (get_or_create_account_lem, exec, ◌>>=◌)
            (ground (arith, none_updates s.auctions id _ (outbid e) h))
      | inr (a, h) ↦
          rw (get_or_create_account_lem, exec, ◌>>=◌)
            (ground (
              arith,
              save_updates s.auctions id _ a (outbid e) h (w.auctions_keyed _ a h),
              account_of-id (g.to_hex e.sender) s w.accounts_keyed,
            ))
    ]
