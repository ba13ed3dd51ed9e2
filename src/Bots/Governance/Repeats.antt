-- ===== src/Bots/Governance/Repeats.antt =====
-- A tick that finds again what the one before it found.
use lilnouns_monorepo.Base.{
  ℕ, ◌≡◌, refl, ◌≢◌, ◌∙◌, ap, sym, Bool, true, false, not, ◌&&◌, Option, none, some, List, [], ◌∷◌,
  All,
}
use lilnouns_monorepo.Bots.Types.{GovernanceVote, GovernanceProposal}
use lilnouns_monorepo.Bots.Redis.{Redis, IsLawful, IsReadBack}
use lilnouns_monorepo.Bots.Proposals.{extract_new_votes, is_at_risk_of_expiry}
use lilnouns_monorepo.Bots.Cache.{
  get_proposal_cache, update_proposal_cache, has_warned_of_expiry, set_proposal_expiry_warning_sent,
}
use lilnouns_monorepo.Bots.World.{
  World, M, Note, ◌>>◌, when, new_proposal, updated_proposal_status, governance_vote,
  proposal_at_risk_of_expiry,
}
use lilnouns_monorepo.Bots.Governance.{
  status_eq, Call, announcing, marking, caching, put, announce, announce_votes, warn_of_expiry,
  revise, process_proposal, process_governance_tick,
}
use lilnouns_monorepo.Bots.Governance.Settled.{
  IsWarned, process_proposal_settled, process_proposal-leaves,
}
use lilnouns_monorepo.Bots.Governance.Ticks.{
  AreDistinct, get_proposal_cache-other, has_warned-other,
}

module _ {Db : Type 0} (r : Redis Db) (outside : Call → Bool) where
  -- Where all announcements and writes resolve, each run does.
  abbrev Resolves : M Db → Type 0
  Resolves m = (w : World Db) → (m w).1 ≡ true

  >>-Resolves : (m n : M Db) → Resolves m → Resolves n → Resolves (m >> n)
  >>-Resolves m n hm hn w = rw (hm w) (hn (m w).0)

  when-Resolves : (c : Bool) (m : M Db) → Resolves m → Resolves (when c m)
  when-Resolves true m h w = h w
  when-Resolves false m h w = refl

  votes-Resolves :
      (p : GovernanceProposal) (vs : List GovernanceVote) → Resolves (announce_votes r outside p vs)
  unfolding announce_votes
  votes-Resolves p [] w = refl
  votes-Resolves p (v ∷ vs) w = votes-Resolves p vs (announce r outside (governance_vote p v) w).0

  module _ (up : (call : Call) → outside call ≡ true) (now : ℕ) where
    announce-Resolves : (note : Note) → Resolves (announce r outside note)
    unfolding announce
    announce-Resolves note w = up (announcing note)

    put-Resolves : (call : Call) (f : Db → Db) → Resolves (put r outside call f)
    unfolding put
    put-Resolves call f w = rw (put, up call) refl

    warn-Resolves : (p : GovernanceProposal) → Resolves (warn_of_expiry r outside now p)
    unfolding warn_of_expiry
    warn-Resolves p w =
        when-Resolves (is_at_risk_of_expiry now p && not (has_warned_of_expiry r p.id w.db))
          (announce r outside (proposal_at_risk_of_expiry p)
            >> put r outside (marking p.id) (set_proposal_expiry_warning_sent r p.id))
          (>>-Resolves (announce r outside (proposal_at_risk_of_expiry p))
            (put r outside (marking p.id) (set_proposal_expiry_warning_sent r p.id))
            (announce-Resolves (proposal_at_risk_of_expiry p))
            (put-Resolves (marking p.id) (set_proposal_expiry_warning_sent r p.id)))
          w

    revise-Resolves :
        (cached : Option GovernanceProposal) (p : GovernanceProposal)
        → Resolves (revise r outside now cached p)
    unfolding revise
    revise-Resolves none p = announce-Resolves (new_proposal p)
    revise-Resolves (some before) p =
        let changed = not (status_eq before.status p.status) in
        let tell = when changed (announce r outside (updated_proposal_status p)) in
        let votes = announce_votes r outside p (extract_new_votes before p) in
        >>-Resolves (tell >> votes) (warn_of_expiry r outside now p)
          (>>-Resolves tell votes
            (when-Resolves changed (announce r outside (updated_proposal_status p))
              (announce-Resolves (updated_proposal_status p)))
            (votes-Resolves p (extract_new_votes before p)))
          (warn-Resolves p)

    process_proposal-Resolves :
        (p : GovernanceProposal) → Resolves (process_proposal r outside now p)
    unfolding process_proposal
    process_proposal-Resolves p w =
        >>-Resolves (revise r outside now (get_proposal_cache r p.id w.db) p)
          (put r outside (caching p.id) (update_proposal_cache r p))
          (revise-Resolves (get_proposal_cache r p.id w.db) p)
          (put-Resolves (caching p.id) (update_proposal_cache r p)) w

    -- A proposal of which nothing is left to announce.
    abbrev IsSettled : Db → GovernanceProposal → Type 0
    IsSettled d p = (get_proposal_cache r p.id d ≡ some p) × IsWarned r outside now p d

    abbrev pub IsCached : Db → GovernanceProposal → Type 0
    IsCached d p = (before : GovernanceProposal) × (get_proposal_cache r p.id d ≡ some before)

    module _ (law : IsLawful r) where
      other-IsSettled :
          (p q : GovernanceProposal) (w : World Db)
          → q.id ≢ p.id
          → IsSettled w.db q
          → IsSettled (process_proposal r outside now p w).0.db q
      other-IsSettled p q w ne h = (
        get_proposal_cache-other r outside law now p q.id w ne ∙ h.0,
        rw (has_warned-other r outside law now p q.id w ne) h.1,
      )

      others-AllSettled :
          (p : GovernanceProposal) (qs : List GovernanceProposal) (w : World Db)
          → All (λ q. q.id ≢ p.id) qs
          → All (IsSettled w.db) qs
          → All (IsSettled (process_proposal r outside now p w).0.db) qs
      others-AllSettled p [] w ne h = tt
      others-AllSettled p (q ∷ qs) w ne h =
          (other-IsSettled p q w ne.0 h.0, others-AllSettled p qs w ne.1 h.1)

      others-AllCached :
          (p : GovernanceProposal) (qs : List GovernanceProposal) (w : World Db)
          → All (λ q. q.id ≢ p.id) qs
          → All (IsCached w.db) qs
          → All (IsCached (process_proposal r outside now p w).0.db) qs
      others-AllCached p [] w ne h = tt
      others-AllCached p (q ∷ qs) w ne h = (
        ((h.0).0, get_proposal_cache-other r outside law now p q.id w ne.0 ∙ (h.0).1),
        others-AllCached p qs w ne.1 h.1,
      )

      -- The runs for the other proposals leave a settled one settled.
      tick-IsSettled :
          (p : GovernanceProposal) (qs : List GovernanceProposal) (w : World Db)
          → All (λ q. q.id ≢ p.id) qs
          → IsSettled w.db p
          → IsSettled (process_governance_tick r outside now qs w).db p
      unfolding process_governance_tick
      tick-IsSettled p [] w ne h = h
      tick-IsSettled p (q ∷ qs) w ne h =
          tick-IsSettled p qs (process_proposal r outside now q w).0 ne.1
            (other-IsSettled q p w (λ e. ne.0 (sym e)) h)

      tick-AllSettled :
          (ps : List GovernanceProposal) (w : World Db)
          → AreDistinct ps
          → All (IsReadBack r) ps
          → All (IsCached w.db) ps
          → All (IsSettled (process_governance_tick r outside now ps w).db) ps
      unfolding process_governance_tick
      tick-AllSettled [] w distinct back cached = tt
      tick-AllSettled (p ∷ ps) w distinct back cached =
          let left =
            process_proposal-leaves r outside law now p (cached.0).0 w back.0 (cached.0).1
              (process_proposal-Resolves p w) in
          let w' = (process_proposal r outside now p w).0 in
          (
            tick-IsSettled p ps w' distinct.0 left,
            tick-AllSettled ps w' distinct.1 back.1 (others-AllCached p ps w distinct.0 cached.1),
          )

      settled_tick :
          (ps : List GovernanceProposal) (w : World Db)
          → AreDistinct ps
          → All (IsSettled w.db) ps
          → (process_governance_tick r outside now ps w).sent ≡ w.sent
      unfolding process_governance_tick
      settled_tick [] w distinct h = refl
      settled_tick (p ∷ ps) w distinct h =
          let run =
            process_proposal_settled r outside now p w (up (caching p.id)) (h.0).0 (h.0).1 in
          let w' = (process_proposal r outside now p w).0 in
          settled_tick ps w' distinct.1 (others-AllSettled p ps w distinct.0 h.1)
          ∙ ap (λ v. v.0.sent) run

      -- A tick over distinct proposals that were all cached before, with announcements and writes that resolve, is
      -- followed by one that announces nothing, if the proposals and the time are the same: no status, no
      -- vote and no warning is sent twice.
      pub process_governance_tick-repeated :
          (ps : List GovernanceProposal) (w : World Db)
          → AreDistinct ps
          → All (IsReadBack r) ps
          → All (IsCached w.db) ps
          → (process_governance_tick r outside now ps
              (process_governance_tick r outside now ps w)).sent
            ≡ (process_governance_tick r outside now ps w).sent
      process_governance_tick-repeated ps w distinct back cached =
          settled_tick ps (process_governance_tick r outside now ps w) distinct
            (tick-AllSettled ps w distinct back cached)
