-- ===== src/Bots/Twitter/Replies.antt =====
-- The handlers of auctions write only the id of the tweet to reply to.
use lilnouns_monorepo.Base.{
  ℕ, ◌≡◌, refl, ◌≢◌, str_eq, str_eq-false, Option, none, some, String, Bool-cases, inl, inr,
}
use lilnouns_monorepo.Bots.Redis.{Redis, IsLawful}
use lilnouns_monorepo.Bots.Cache.{
  reply_tweet_id_key, get_auction_reply_tweet_id, update_auction_reply_tweet_id,
}
use lilnouns_monorepo.Base.{Bool}
use lilnouns_monorepo.Bots.World.{
  Env, Note, new_auction, new_bid, auction_ending_soon, new_proposal, updated_proposal_status,
  governance_vote, proposal_at_risk_of_expiry,
}
use lilnouns_monorepo.Bots.Twitter.{
  Socials, settle, handle_new_auction, reply_to, twitter, auction_handlers,
}

module _ {Db : Type 0} (r : Redis Db) where
  -- Handlers that leave all other keys as they were.
  abbrev pub KeepsCache : Env Db → Type 0
  KeepsCache env =
      (k : String) (note : Note) (d : Db)
      → reply_tweet_id_key ≢ k
      → r.get k (env.deliver note d).0 ≡ r.get k d

  module _ (law : IsLawful r) (socials : Socials) (k : String)
      (other : reply_tweet_id_key ≢ k) where
    settle-get : (o : Option String) (d : Db) → r.get k (settle r socials o d).0 ≡ r.get k d
    unfolding settle update_auction_reply_tweet_id
    settle-get none d = refl
    settle-get (some id) d = rw (law.get_set, str_eq-false _ _ other)

    new_auction-get : (id : ℕ) (d : Db) → r.get k (handle_new_auction r socials id d).0 ≡ r.get k d
    unfolding handle_new_auction
    new_auction-get id d = elim (Bool-cases (socials.noun_png id)) [
      | inl e ↦ rw e (settle-get (socials.tweet id) d)
      | inr e ↦ rw e
    ]

    reply_to-get :
        (note : Note) (o : Option String) (d : Db)
        → r.get k (reply_to r socials note o d).0 ≡ r.get k d
    unfolding reply_to
    reply_to-get note none d = refl
    reply_to-get note (some id) d = elim (Bool-cases (str_eq id "")) [
      | inl e ↦ rw e
      | inr e ↦ rw e (settle-get (socials.reply note id) d)
    ]

    twitter-get : (note : Note) (d : Db) → r.get k (twitter r socials note d).0 ≡ r.get k d
    unfolding twitter
    twitter-get (new_auction id) d = new_auction-get id d
    twitter-get (new_bid id bid) d =
        reply_to-get (new_bid id bid) (get_auction_reply_tweet_id r d) d
    twitter-get (auction_ending_soon id) d =
        reply_to-get (auction_ending_soon id) (get_auction_reply_tweet_id r d) d
    twitter-get (new_proposal p) d = refl
    twitter-get (updated_proposal_status p) d = refl
    twitter-get (governance_vote p v) d = refl
    twitter-get (proposal_at_risk_of_expiry p) d = refl

  pub auction_handlers-KeepsCache :
      IsLawful r
      → (socials : Socials) (count : String → Bool) → KeepsCache (auction_handlers r socials count)
  unfolding auction_handlers
  auction_handlers-KeepsCache law socials count k note d other =
      twitter-get law socials k other note d
