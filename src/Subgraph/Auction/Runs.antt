-- ===== src/Subgraph/Auction/Runs.antt =====
-- Runs of the auction house's events: the store stays well formed, and each auction follows its
-- specification.
use lilnouns_monorepo.Base.{String, ◌≡◌, refl, some, List, [], ◌∷◌, ◌∙◌, Option-cases, inl, inr}
use mathlib.Core.Path.{ap₂}
use lilnouns_monorepo.Base.Table.{load, save, save-IsKeyed}
use lilnouns_monorepo.Subgraph.Host.{GraphTs}
use lilnouns_monorepo.Subgraph.Entities.{Account, Auction}
use lilnouns_monorepo.Subgraph.Store.{Store, exec, ◌>>=◌}
use lilnouns_monorepo.Subgraph.Helpers.{new_account}
use lilnouns_monorepo.Subgraph.Helpers.Found.{account_of, with_account, get_or_create_account_lem}
use lilnouns_monorepo.Subgraph.Auction.{
  or_log, bidder_of, handle_auction_created, handle_auction_bid, handle_auction_extended,
  handle_auction_settled,
}
use lilnouns_monorepo.Subgraph.Auction.Lifecycle.{
  AuctionEvent, created, bid, extended, settled, IsWellFormed, handle, run, next, life, opening,
  extend, settle, created_step, bid_step, extended_step, settled_step,
}

-- A well-formed store, with the nouns of another.
abbrev Keeps : Store → Store → Type 0
Keeps s s' = IsWellFormed s' × (s'.nouns ≡ s.nouns)

with_auction : Store → String → Auction → Store
with_auction s k a = record s { auctions = save k a s.auctions }

with_auction-Keeps :
    (s : Store) (k : String) (a : Auction)
    → IsWellFormed s
    → a.id ≡ k
    → Keeps s (with_auction s k a)
unfolding with_auction
with_auction-Keeps s k a w e = (
  record {
    auctions_keyed = save-IsKeyed Auction.id k a s.auctions e w.auctions_keyed;
    accounts_keyed = w.accounts_keyed;
  },
  refl,
)

with_account-Keeps : (s : Store) (id : String) → IsWellFormed s → Keeps s (with_account id s)
with_account-Keeps s id w = elim (Option-cases (load id s.accounts)) [
  | inl h ↦ rw h (
    record {
      auctions_keyed = w.auctions_keyed;
      accounts_keyed = save-IsKeyed Account.id id (new_account id) s.accounts refl w.accounts_keyed;
    },
    refl,
  )
  | inr (a, h) ↦ rw h (w, refl)
]

module _ (g : GraphTs) (s : Store) (w : IsWellFormed s) where
  same-Keeps : Keeps s s
  same-Keeps = (w, refl)

  handle-Keeps : (e : AuctionEvent) → Keeps s (exec (handle g e) s)
  unfolding handle handle_auction_created handle_auction_bid handle_auction_extended
      handle_auction_settled with_auction
  handle-Keeps (created e) = elim (Option-cases (load (g.to_string e.noun_id) s.nouns)) [
    | inl h ↦
        rw (h, exec, ◌>>=◌, or_log)
          (record { auctions_keyed = w.auctions_keyed; accounts_keyed = w.accounts_keyed }, refl)
    | inr (n, h) ↦
        rw (h, exec, ◌>>=◌, or_log)
          (with_auction-Keeps s _
            (opening g e n (bidder_of (load (g.to_string e.noun_id) s.auctions))) w refl)
  ]
  handle-Keeps (bid e) = elim (Option-cases (load (g.to_string e.noun_id) s.auctions)) [
    | inl h ↦
        rw (get_or_create_account_lem, exec, ◌>>=◌)
          (rw (h, or_log)
            (let k = with_account-Keeps s (g.to_hex e.sender) w in
              (
                record { auctions_keyed = k.0.auctions_keyed; accounts_keyed = k.0.accounts_keyed },
                k.1,
              )))
    | inr (a, h) ↦
        rw (get_or_create_account_lem, exec, ◌>>=◌)
          (rw (h, or_log)
            (let bidder = (account_of (g.to_hex e.sender) s).id in
              let k = with_account-Keeps s (g.to_hex e.sender) w in
              let k' =
                with_auction-Keeps (with_account (g.to_hex e.sender) s) a.id
                  (record a { amount = e.value; bidder = some bidder }) k.0 refl in
              (
                record {
                  auctions_keyed = k'.0.auctions_keyed;
                  accounts_keyed = k'.0.accounts_keyed;
                },
                k'.1 ∙ k.1,
              )))
  ]
  handle-Keeps (extended e) = elim (Option-cases (load (g.to_string e.noun_id) s.auctions)) [
    | inl h ↦
        rw (h, exec, ◌>>=◌, or_log)
          (record { auctions_keyed = w.auctions_keyed; accounts_keyed = w.accounts_keyed }, refl)
    | inr (a, h) ↦ rw (h, exec, ◌>>=◌, or_log) (with_auction-Keeps s a.id (extend g e a) w refl)
  ]
  handle-Keeps (settled e) = elim (Option-cases (load (g.to_string e.noun_id) s.auctions)) [
    | inl h ↦
        rw (h, exec, ◌>>=◌, or_log)
          (record { auctions_keyed = w.auctions_keyed; accounts_keyed = w.accounts_keyed }, refl)
    | inr (a, h) ↦ rw (h, exec, ◌>>=◌, or_log) (with_auction-Keeps s a.id (settle g a) w refl)
  ]

  handle-next :
      (e : AuctionEvent) (id : String)
      → load id (exec (handle g e) s).auctions ≡ next g s.nouns id e (load id s.auctions)
  handle-next (created e) id = created_step g e s id
  handle-next (bid e) id = bid_step g s id w e
  handle-next (extended e) id = extended_step g s id w e
  handle-next (settled e) id = settled_step g s id w e

module _ (g : GraphTs) where
  -- From a well-formed store, after any sequence of the auction house's events, the auction of a noun
  -- is what its specification makes of it, event by event, from the nouns of the first store; and the
  -- store is well formed.
  pub run-life :
      (es : List AuctionEvent) (s : Store) (id : String)
      → IsWellFormed s
      → (load id (run g es s).auctions ≡ life g s.nouns id es (load id s.auctions))
        × IsWellFormed (run g es s)
  unfolding run life
  run-life [] s id w = (refl, w)
  run-life (e ∷ es) s id w =
      let s' = exec (handle g e) s in
      let k = handle-Keeps g s w e in
      let ih = run-life es s' id k.0 in
      (ih.0 ∙ ap₂ (λ n o. life g n id es o) k.1 (handle-next g s w e id), ih.1)
