-- ===== src/Bots/World.antt =====
-- The world that a tick of index.ts changes: the cache, and what is announced. A tick that rejects
-- stops there, and what it wrote before stays.
use Prim.Native.String.{◌++◌}
use lilnouns_monorepo.Base.{ℕ, Bool, true, false, String, List, ◌∷◌, if◌then◌else◌}
use lilnouns_monorepo.Bots.Types.{Bid, GovernanceProposal, GovernanceVote}

-- One call of a method of `IAuctionLifecycleHandler` on all handlers that have it.
pub data Note : Type 0 where
  new_auction : ℕ → Note
  new_bid : ℕ → Bid → Note
  auction_ending_soon : ℕ → Note
  new_proposal : GovernanceProposal → Note
  updated_proposal_status : GovernanceProposal → Note
  governance_vote : GovernanceProposal → GovernanceVote → Note
  proposal_at_risk_of_expiry : GovernanceProposal → Note

-- `sent` has the latest first.
pub record World (Db : Type 0) : Type 0 where
  pub db : Db
  pub sent : List Note

-- What happens outside while a tick runs: the handlers, which may write to the cache, and whether all
-- of them resolve; and whether a request to the counter resolves.
pub record Env (Db : Type 0) : Type 0 where
  pub deliver : Note → Db → Db × Bool
  pub count : String → Bool

-- A run ends resolved (true) or rejected.
abbrev pub M : Type 0 → Type 0
M Db = World Db → World Db × Bool

abbrev pub build_counter_name : String → String
build_counter_name counter_name = "bots_" ++ counter_name

module _ {Db : Type 0} where
  infixl 5 ◌>>◌
  abbrev pub ◌>>◌ : M Db → M Db → M Db
  ◌>>◌ m k w = let (w', resolved) = m w in if resolved then k w' else (w', false)

  abbrev pub skip : M Db
  skip w = (w, true)

  abbrev pub when : Bool → M Db → M Db
  when c m w = if c then m w else (w, true)

  abbrev pub write : (Db → Db) → M Db
  write f w = (record w { db = f w.db }, true)

  -- `Promise.all(handlers.map(...))`
  abbrev pub notify : Env Db → Note → M Db
  notify env note w =
      let (d, resolved) = env.deliver note w.db in
      (record { db = d; sent = note ∷ w.sent }, resolved)

  abbrev pub increment_counter : Env Db → String → M Db
  increment_counter env name w = (w, env.count (build_counter_name name))
