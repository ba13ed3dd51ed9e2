-- ===== src/Bots/Governance/Ticks.antt =====
-- What a run for one proposal leaves of the others.
use lilnouns_monorepo.Base.{
  ℕ, ◌≡◌, refl, ◌≢◌, ◌∙◌, sym, Bool, true, false, not, ◌&&◌, Option, none, some, List, [], ◌∷◌, All,
  String, Bool-cases, inl, inr,
}
use lilnouns_monorepo.Bots.Types.{GovernanceVote, GovernanceProposal}
use lilnouns_monorepo.Bots.Redis.{Redis, IsLawful}
use lilnouns_monorepo.Bots.Proposals.{extract_new_votes, is_at_risk_of_expiry}
use lilnouns_monorepo.Bots.Cache.{
  get_proposal_cache, update_proposal_cache, has_warned_of_expiry, set_proposal_expiry_warning_sent,
  proposal_cache_key, proposal_expiry_warning_sent_cache_key,
}
use lilnouns_monorepo.Bots.Cache.Stored.{
  proposal-ne-warning, proposal_cache_key_inj, warning_key_inj, get_proposal_cache_same,
  has_warned_of_expiry_same, get-update_other, get-set_warned_other,
}
use lilnouns_monorepo.Bots.World.{
  World, M, Note, ◌>>◌, when, new_proposal, updated_proposal_status, governance_vote,
  proposal_at_risk_of_expiry,
}
use lilnouns_monorepo.Bots.Governance.{
  status_eq, Call, marking, caching, put, announce, announce_votes, warn_of_expiry, revise,
  process_proposal,
}

-- No two proposals have one id.
abbrev pub AreDistinct : List GovernanceProposal → Type 0
AreDistinct [] = Unit
AreDistinct (p ∷ ps) = All (λ q. q.id ≢ p.id) ps × AreDistinct ps

module _ {Db : Type 0} (r : Redis Db) (outside : Call → Bool) where
  -- A step that leaves one key.
  abbrev Leaves : String → M Db → Type 0
  Leaves k m = (w : World Db) → r.get k (m w).0.db ≡ r.get k w.db

  >>-Leaves : (k : String) (m n : M Db) → Leaves k m → Leaves k n → Leaves k (m >> n)
  >>-Leaves k m n hm hn w = elim (Bool-cases (m w).1) [
    | inl e ↦ rw e (hn (m w).0 ∙ hm w)
    | inr e ↦ rw e (hm w)
  ]

  when-Leaves : (k : String) (c : Bool) (m : M Db) → Leaves k m → Leaves k (when c m)
  when-Leaves k true m h w = h w
  when-Leaves k false m h w = refl

  announce-Leaves : (k : String) (note : Note) → Leaves k (announce r outside note)
  unfolding announce
  announce-Leaves k note w = refl

  votes-Leaves :
      (k : String) (p : GovernanceProposal) (vs : List GovernanceVote)
      → Leaves k (announce_votes r outside p vs)
  unfolding announce_votes announce
  votes-Leaves k p [] w = refl
  votes-Leaves k p (v ∷ vs) w = votes-Leaves k p vs (announce r outside (governance_vote p v) w).0

  put-Leaves :
      (k : String) (call : Call) (f : Db → Db)
      → ((d : Db) → r.get k (f d) ≡ r.get k d)
      → Leaves k (put r outside call f)
  unfolding put
  put-Leaves k call f h w = elim (Bool-cases (outside call)) [
    | inl e ↦ rw (put, e) (h w.db)
    | inr e ↦ rw (put, e) refl
  ]

  module _ (law : IsLawful r) (now : ℕ) where
    warn-Leaves :
        (k : String) (p : GovernanceProposal)
        → proposal_expiry_warning_sent_cache_key r p.id ≢ k
        → Leaves k (warn_of_expiry r outside now p)
    unfolding warn_of_expiry
    warn-Leaves k p other w =
        when-Leaves k (is_at_risk_of_expiry now p && not (has_warned_of_expiry r p.id w.db))
          (announce r outside (proposal_at_risk_of_expiry p)
            >> put r outside (marking p.id) (set_proposal_expiry_warning_sent r p.id))
          (>>-Leaves k _ (put r outside (marking p.id) (set_proposal_expiry_warning_sent r p.id))
            (announce-Leaves k (proposal_at_risk_of_expiry p))
            (put-Leaves k (marking p.id) (set_proposal_expiry_warning_sent r p.id)
              (λ d. get-set_warned_other r law k p.id d other)))
          w

    revise-Leaves :
        (k : String) (cached : Option GovernanceProposal) (p : GovernanceProposal)
        → proposal_expiry_warning_sent_cache_key r p.id ≢ k
        → Leaves k (revise r outside now cached p)
    unfolding revise
    revise-Leaves k none p other = announce-Leaves k (new_proposal p)
    revise-Leaves k (some before) p other =
        let changed = not (status_eq before.status p.status) in
        let tell = when changed (announce r outside (updated_proposal_status p)) in
        let votes = announce_votes r outside p (extract_new_votes before p) in
        >>-Leaves k (tell >> votes) (warn_of_expiry r outside now p)
          (>>-Leaves k tell votes
            (when-Leaves k changed (announce r outside (updated_proposal_status p))
              (announce-Leaves k (updated_proposal_status p)))
            (votes-Leaves k p (extract_new_votes before p)))
          (warn-Leaves k p other)

    process_proposal-Leaves :
        (k : String) (p : GovernanceProposal)
        → proposal_cache_key r p.id ≢ k
        → proposal_expiry_warning_sent_cache_key r p.id ≢ k
        → Leaves k (process_proposal r outside now p)
    unfolding process_proposal
    process_proposal-Leaves k p other other' w =
        >>-Leaves k (revise r outside now (get_proposal_cache r p.id w.db) p)
          (put r outside (caching p.id) (update_proposal_cache r p))
          (revise-Leaves k (get_proposal_cache r p.id w.db) p other')
          (put-Leaves k (caching p.id) (update_proposal_cache r p)
            (λ d. get-update_other r law k p d other))
          w

    -- A run for one proposal leaves what is cached of another.
    pub get_proposal_cache-other :
        (p : GovernanceProposal) (id : ℕ) (w : World Db)
        → id ≢ p.id
        → get_proposal_cache r id (process_proposal r outside now p w).0.db
          ≡ get_proposal_cache r id w.db
    get_proposal_cache-other p id w ne = get_proposal_cache_same r law id w.db _ (
        process_proposal-Leaves (proposal_cache_key r id) p
          (λ e. ne (sym (proposal_cache_key_inj r law p.id id e)))
          (λ e. proposal-ne-warning r law id p.id (sym e)) w)

    pub has_warned-other :
        (p : GovernanceProposal) (id : ℕ) (w : World Db)
        → id ≢ p.id
        → has_warned_of_expiry r id (process_proposal r outside now p w).0.db
          ≡ has_warned_of_expiry r id w.db
    has_warned-other p id w ne = has_warned_of_expiry_same r law id w.db _ (
        process_proposal-Leaves (proposal_expiry_warning_sent_cache_key r id) p
          (λ e. proposal-ne-warning r law p.id id e)
          (λ e. ne (sym (warning_key_inj r law p.id id e))) w)
