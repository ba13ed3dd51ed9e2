-- ===== src/Bots/Auctions/Announced.antt =====
-- Which auctions a run of ticks announces.
use lilnouns_monorepo.Base.{
  ℕ, suc, ◌<◌, ◌≤◌, ◌≡◌, refl, ◌∙◌, ltb, str_eq, Bool, true, false, not, ◌&&◌, String, List, [],
  ◌∷◌, ◌≢◌, Bool-cases, inl, inr, arith, eq_iff, ap, All, ◌+◌, ◌*◌,
}
use lilnouns_monorepo.Bots.Types.{Bid, AuctionBids}
use lilnouns_monorepo.Bots.Redis.{Redis, IsLawful}
use lilnouns_monorepo.Bots.Cache.{
  number_or_zero, auction_cache_key, reply_tweet_id_key, get_auction_cache, update_auction_cache,
  update_bid_cache, update_auction_ending_soon_cache, get_auction_ending_soon_cache, get_bid_cache,
}
use lilnouns_monorepo.Bots.Cache.Stored.{get-update_auction_cache}
use lilnouns_monorepo.Bots.World.{
  World, Env, M, ◌>>◌, when, write, notify, increment_counter, Note, new_auction, new_bid,
  auction_ending_soon, new_proposal, updated_proposal_status, governance_vote,
  proposal_at_risk_of_expiry,
}
use lilnouns_monorepo.Bots.Auctions.{
  discover_auction, discover_bid, warn_of_end, process_auction_tick,
}
use lilnouns_monorepo.Bots.Twitter.Replies.{KeepsCache}

-- The auctions that were announced, the latest first.
abbrev pub started : List Note → List ℕ
started [] = []
started (new_auction id ∷ ns) = id ∷ started ns
started (new_bid id bid ∷ ns) = started ns
started (auction_ending_soon id ∷ ns) = started ns
started (new_proposal p ∷ ns) = started ns
started (updated_proposal_status p ∷ ns) = started ns
started (governance_vote p v ∷ ns) = started ns
started (proposal_at_risk_of_expiry p ∷ ns) = started ns

-- Each number is below the one before it, and the first below the bound.
abbrev pub Descends : ℕ → List ℕ → Type 0
Descends b [] = Unit
Descends b (n ∷ ns) = (n < b) × Descends n ns

Descends-le : (a b : ℕ) (ns : List ℕ) → a ≤ b → Descends a ns → Descends b ns
Descends-le a b [] le h = tt
Descends-le a b (n ∷ ns) le h = (omega arith, h.1)

ltb-true : (a b : ℕ) → a < b → ltb a b ≡ true
ltb-true a b h = ground arith

auction-ne-reply : reply_tweet_id_key ≢ auction_cache_key
auction-ne-reply p = cc ((eq_iff reply_tweet_id_key auction_cache_key).1 p)

module _ {Db : Type 0} (r : Redis Db) where
  -- The announcements never name an auction again, and reach the cached one at most.
  abbrev pub IsAscending : World Db → Type 0
  IsAscending w = Descends (suc (get_auction_cache r w.db)) (started w.sent)

  abbrev IsQuiet : M Db → Type 0
  IsQuiet m =
      (w : World Db)
      → (started (m w).0.sent ≡ started w.sent)
        × (r.get auction_cache_key (m w).0.db ≡ r.get auction_cache_key w.db)

  >>-same :
      (m k : M Db) (w : World Db)
      → IsQuiet k
      → (started ((m >> k) w).0.sent ≡ started (m w).0.sent)
        × (r.get auction_cache_key ((m >> k) w).0.db ≡ r.get auction_cache_key (m w).0.db)
  >>-same m k w quiet = elim (Bool-cases (m w).1) [
    | inl e ↦ rw e (quiet (m w).0)
    | inr e ↦ rw e (refl, refl)
  ]

  when-IsQuiet : (c : Bool) (m : M Db) → IsQuiet m → IsQuiet (when c m)
  when-IsQuiet true m h w = h w
  when-IsQuiet false m h w = (refl, refl)

  module _ (law : IsLawful r) (env : Env Db) (keeps : KeepsCache r env) where
    notify-get :
        (note : Note) (w : World Db)
        → r.get auction_cache_key (notify env note w).0.db ≡ r.get auction_cache_key w.db
    notify-get note w = keeps auction_cache_key note w.db auction-ne-reply

    bid-IsQuiet :
        (cached : String) (id : ℕ) (bids : List Bid) → IsQuiet (discover_bid r env cached id bids)
    unfolding discover_bid update_bid_cache
    bid-IsQuiet cached id [] w = (refl, refl)
    bid-IsQuiet cached id (bid ∷ bids) w =
        when-IsQuiet (not (str_eq cached bid.id))
          (write (update_bid_cache r bid.id) >> notify env (new_bid id bid))
          (λ v. (
            refl,
            notify-get (new_bid id bid) (record v { db = update_bid_cache r bid.id v.db })
                ∙ (rw law.get_set),
          ))
          w

    warn_of_end-IsQuiet :
        (cached now : ℕ) (last : AuctionBids) → IsQuiet (warn_of_end r env cached now last)
    unfolding warn_of_end update_auction_ending_soon_cache
    warn_of_end-IsQuiet cached now last w =
        when-IsQuiet (ltb last.end_time (now + 20 * 60) && ltb cached last.id)
          (write (update_auction_ending_soon_cache r last.id)
            >> notify env (auction_ending_soon last.id))
          (λ v. (
            refl,
            notify-get (auction_ending_soon last.id)
                  (record v { db = update_auction_ending_soon_cache r last.id v.db })
                ∙ (rw law.get_set),
          ))
          w

    announce : AuctionBids → M Db
    announce last =
        write (update_auction_cache r last.id)
        >> notify env (new_auction last.id)
        >> increment_counter env "auction_cache_updates"

    -- The new auction is cached before anything may reject.
    announce_lem :
        (last : AuctionBids) (w : World Db)
        → (started (announce last w).0.sent ≡ last.id ∷ started w.sent)
          × (get_auction_cache r (announce last w).0.db ≡ last.id)
    unfolding get_auction_cache announce
    announce_lem last w =
        let w' = record w { db = update_auction_cache r last.id w.db } in
        let cached =
          ap (number_or_zero r) (notify-get (new_auction last.id) w')
          ∙ get-update_auction_cache r law last.id w.db in
        elim (Bool-cases (notify env (new_auction last.id) w').1) [
          | inl e ↦ rw e (refl, cached)
          | inr e ↦ rw e (refl, cached)
        ]

    discover_auction-announces :
        (last : AuctionBids) (w : World Db)
        → get_auction_cache r w.db < last.id
        → env.count "bots_auctions_discovered" ≡ true
        → discover_auction r env (get_auction_cache r w.db) last w ≡ announce last w
    unfolding discover_auction announce
    discover_auction-announces last w lt c = rw (ltb-true _ _ lt, c)

    discover_auction-IsAscending :
        (last : AuctionBids) (w : World Db)
        → IsAscending w
        → IsAscending (discover_auction r env (get_auction_cache r w.db) last w).0
    unfolding discover_auction
    discover_auction-IsAscending last w h =
        elim (Bool-cases (ltb (get_auction_cache r w.db) last.id)) [
          | inr e ↦ rw e h
          | inl e ↦ elim (Bool-cases (env.count "bots_auctions_discovered")) [
            | inr c ↦ rw (e, c) h
            | inl c ↦
                let lt : get_auction_cache r w.db < last.id = ground arith in
                rw (discover_auction-announces last w lt c) (
                  rw ((announce_lem last w).0, (announce_lem last w).1)
                    (omega arith, Descends-le _ _ _ lt h))
          ]
        ]

    -- What comes after the discovery neither announces nor caches an auction.
    tick-discover :
        (now : ℕ) (last : AuctionBids) (w : World Db)
        → let tick = (process_auction_tick r env now last w).0 in
          let discovered = (discover_auction r env (get_auction_cache r w.db) last w).0 in
          (started tick.sent ≡ started discovered.sent)
          × (get_auction_cache r tick.db ≡ get_auction_cache r discovered.db)
    unfolding process_auction_tick get_auction_cache
    tick-discover now last w =
        let a = discover_auction r env (get_auction_cache r w.db) last in
        let b = increment_counter env "auction_process_last_auction" in
        let c = discover_bid r env (get_bid_cache r w.db) last.id last.bids in
        let d = warn_of_end r env (get_auction_ending_soon_cache r w.db) now last in
        let same_ab = >>-same a b w (λ v. (refl, refl)) in
        let same_c = >>-same (a >> b) c w (bid-IsQuiet _ last.id last.bids) in
        let same_d = >>-same (a >> b >> c) d w (warn_of_end-IsQuiet _ now last) in
        (
          same_d.0 ∙ (same_c.0 ∙ same_ab.0),
          ap (number_or_zero r) (same_d.1 ∙ (same_c.1 ∙ same_ab.1)),
        )

    pub process_auction_tick-IsAscending :
        (now : ℕ) (last : AuctionBids) (w : World Db)
        → IsAscending w
        → IsAscending (process_auction_tick r env now last w).0
    unfolding process_auction_tick
    process_auction_tick-IsAscending now last w h =
        let same = tick-discover now last w in
        rw (same.0, same.1) (discover_auction-IsAscending last w h)

  -- The ticks of a run, each with what happens outside during it, its time and the auction.
  unfoldable pub run_ticks : List (Env Db × ℕ × AuctionBids) → World Db → World Db
  run_ticks [] w = w
  run_ticks ((env, now, last) ∷ ts) w = run_ticks ts (process_auction_tick r env now last w).0

  run_ticks-IsAscending :
      IsLawful r
      → (ts : List (Env Db × ℕ × AuctionBids)) (w : World Db) → All (λ t. KeepsCache r t.0) ts
      → IsAscending w
      → IsAscending (run_ticks ts w)
  unfolding run_ticks
  run_ticks-IsAscending law [] w keeps h = h
  run_ticks-IsAscending law ((env, now, last) ∷ ts) w keeps h =
      run_ticks-IsAscending law ts _ keeps.1
        (process_auction_tick-IsAscending law env keeps.0 now last w h)

  -- Whatever the subgraph reports and whichever requests fail, the auctions that a run of ticks
  -- announces have rising numbers, so that none is announced twice, and none is above the cached one,
  -- as long as the handlers write no key but that of the tweet to reply to.
  pub run_ticks-ascends :
      IsLawful r
      → (ts : List (Env Db × ℕ × AuctionBids)) (d : Db) → All (λ t. KeepsCache r t.0) ts
      → Descends
          (suc (get_auction_cache r (run_ticks ts (record { db = d; sent = [] })).db))
          (started (run_ticks ts (record { db = d; sent = [] })).sent)
  run_ticks-ascends law ts d keeps = run_ticks-IsAscending law ts _ keeps tt

  -- A tick that finds an auction above the cached one, and reaches the counter, announces that auction
  -- once and leaves it as the cached one, whether the handlers and the later requests resolve or not,
  -- as long as the handlers write no key but that of the tweet to reply to.
  pub process_auction_tick-announces :
      IsLawful r
      → (env : Env Db) (now : ℕ) (last : AuctionBids) (w : World Db) → KeepsCache r env
      → get_auction_cache r w.db < last.id
      → env.count "bots_auctions_discovered" ≡ true
      → (started (process_auction_tick r env now last w).0.sent ≡ last.id ∷ started w.sent)
        × (get_auction_cache r (process_auction_tick r env now last w).0.db ≡ last.id)
  process_auction_tick-announces law env now last w keeps lt c =
      let same = tick-discover law env keeps now last w in
      let found = discover_auction-announces law env keeps last w lt c in
      let done = announce_lem law env keeps last w in
      (
        same.0 ∙ (ap (λ v. started v.0.sent) found ∙ done.0),
        same.1 ∙ (ap (λ v. get_auction_cache r v.0.db) found ∙ done.1),
      )
