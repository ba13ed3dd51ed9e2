-- ===== src/Bots/Governance/Settled.antt =====
-- Once a proposal is cached as it is, a run for it has nothing to announce.
use lilnouns_monorepo.Base.{
  ℕ, ◌≡◌, refl, Bool, true, false, not, ◌&&◌, ◌||◌, some, List, [], ◌∷◌, All, Bool-cases, inl, inr,
  arith, ltb, eq_refl, map, keep, String, str_eq,
}
use lilnouns_monorepo.Bots.Types.{
  GovernanceVote, GovernanceProposal, Status, active, cancelled, executed, pending, queued, vetoed,
}
use lilnouns_monorepo.Bots.Redis.{Redis, IsLawful, IsReadBack}
use lilnouns_monorepo.Bots.Proposals.{extract_new_votes, has_id, is_at_risk_of_expiry}
use lilnouns_monorepo.Bots.Cache.{get_proposal_cache, update_proposal_cache, has_warned_of_expiry}
use lilnouns_monorepo.Bots.Cache.Stored.{
  get-update_proposal_cache, has-set_warned, has-update_proposal_cache,
}
use lilnouns_monorepo.Bots.World.{
  World, M, ◌>>◌, when, updated_proposal_status, proposal_at_risk_of_expiry,
}
use lilnouns_monorepo.Bots.Governance.{
  status_eq, Call, announcing, marking, caching, put, announce, announce_votes, warn_of_expiry,
  revise, process_proposal,
}

◌||◌-true : (b : Bool) → b || true ≡ true
◌||◌-true true = refl
◌||◌-true false = refl

status_eq_self : (s : Status) → status_eq s s ≡ true
unfolding status_eq
status_eq_self active = refl
status_eq_self cancelled = refl
status_eq_self executed = refl
status_eq_self pending = refl
status_eq_self queued = refl
status_eq_self vetoed = refl

-- Every vote of a list is known by the ids of the list.
known-cons :
    (i : String) (ids : List String) (vs : List GovernanceVote)
    → All (λ v. has_id ids v.id ≡ true) vs
    → All (λ v. has_id (i ∷ ids) v.id ≡ true) vs
unfolding has_id
known-cons i ids [] h = tt
known-cons i ids (v ∷ vs) h = (rw h.0 (◌||◌-true (str_eq i v.id)), known-cons i ids vs h.1)

known : (vs : List GovernanceVote) → All (λ v. has_id (map (λ u. u.id) vs) v.id ≡ true) vs
unfolding has_id
known [] = tt
known (v ∷ vs) = (rw eq_refl, known-cons v.id _ vs (known vs))

keep-known :
    (ids : List String) (vs : List GovernanceVote)
    → All (λ v. has_id ids v.id ≡ true) vs
    → keep (λ (v : GovernanceVote). not (has_id ids v.id) && ltb 0 v.votes) vs ≡ []
keep-known ids [] h = refl
keep-known ids (v ∷ vs) h = rw (h.0, keep) (keep-known ids vs h.1)

extract_new_votes_self : (p : GovernanceProposal) → extract_new_votes p p ≡ []
unfolding extract_new_votes
extract_new_votes_self p = keep-known _ p.votes (known p.votes)

module _ {Db : Type 0} (r : Redis Db) (outside : Call → Bool) where
  >>-resolved :
      (m k : M Db) (w : World Db)
      → ((m >> k) w).1 ≡ true
      → ((m >> k) w ≡ k (m w).0) × ((k (m w).0).1 ≡ true)
  >>-resolved m k w = elim (Bool-cases (m w).1) [
    | inl e ↦ rw e (λ h. (refl, h))
    | inr e ↦ rw e (λ h. cc)
  ]

  >>-first : (m k : M Db) (w : World Db) → ((m >> k) w).1 ≡ true → (m w).1 ≡ true
  >>-first m k w = elim (Bool-cases (m w).1) [ inl e ↦ rw e (λ h. refl) | inr e ↦ rw e (λ h. cc) ]

  -- Nothing is left to warn of.
  abbrev pub IsWarned : ℕ → GovernanceProposal → Db → Type 0
  IsWarned now p d = is_at_risk_of_expiry now p && not (has_warned_of_expiry r p.id d) ≡ false

  warn_of_expiry-IsWarned :
      IsLawful r
      → (now : ℕ) (p : GovernanceProposal) (w : World Db)
      → (warn_of_expiry r outside now p w).1 ≡ true
      → IsWarned now p (warn_of_expiry r outside now p w).0.db
  unfolding warn_of_expiry announce put
  warn_of_expiry-IsWarned law now p w =
      elim (Bool-cases (is_at_risk_of_expiry now p && not (has_warned_of_expiry r p.id w.db))) [
        | inr e ↦ rw e (λ h. e)
        | inl e ↦ rw e (elim (Bool-cases (outside (announcing (proposal_at_risk_of_expiry p)))) [
          | inl d ↦ rw d (elim (Bool-cases (outside (marking p.id))) [
            | inl m ↦ rw (put, m) (λ h. ground (arith, has-set_warned r law p.id w.db))
            | inr m ↦ rw (put, m) (λ h. cc)
          ])
          | inr d ↦ rw d (λ h. cc)
        ])
      ]

  put_resolved :
      (call : Call) (f : Db → Db) (w : World Db)
      → (put r outside call f w).1 ≡ true
      → put r outside call f w ≡ (record w { db = f w.db }, true)
  unfolding put
  put_resolved call f w = elim (Bool-cases (outside call)) [
    | inl e ↦ rw (put, e) (λ h. refl)
    | inr e ↦ rw (put, e) (λ h. cc)
  ]

  pub process_proposal_settled :
      (now : ℕ) (p : GovernanceProposal) (w : World Db)
      → outside (caching p.id) ≡ true
      → get_proposal_cache r p.id w.db ≡ some p
      → IsWarned now p w.db
      → process_proposal r outside now p w
        ≡ (record w { db = update_proposal_cache r p w.db }, true)
  unfolding process_proposal revise warn_of_expiry announce_votes put
  process_proposal_settled now p w up cached warned =
      rw cached
        (rw (status_eq_self p.status, extract_new_votes_self p) (rw warned (rw (put, up) refl)))

  revise-IsWarned :
      IsLawful r
      → (now : ℕ) (p before : GovernanceProposal) (w : World Db)
      → (revise r outside now (some before) p w).1 ≡ true
      → IsWarned now p (revise r outside now (some before) p w).0.db
  unfolding revise
  revise-IsWarned law now p before w h =
      let changed = not (status_eq before.status p.status) in
      let told =
        when changed (announce r outside (updated_proposal_status p))
        >> announce_votes r outside p (extract_new_votes before p) in
      let end = >>-resolved told (warn_of_expiry r outside now p) w h in
      rw end.0 (warn_of_expiry-IsWarned law now p (told w).0 end.1)

  -- A run that resolves leaves the proposal cached as it is, and no warning due if it was cached before.
  pub process_proposal-leaves :
      IsLawful r
      → (now : ℕ) (p before : GovernanceProposal) (w : World Db) → IsReadBack r p
      → get_proposal_cache r p.id w.db ≡ some before
      → (process_proposal r outside now p w).1 ≡ true
      → (get_proposal_cache r p.id (process_proposal r outside now p w).0.db ≡ some p)
        × IsWarned now p (process_proposal r outside now p w).0.db
  unfolding process_proposal
  process_proposal-leaves law now p before w back cached = rw cached (λ h.
      let m = revise r outside now (some before) p in
      let store = put r outside (caching p.id) (update_proposal_cache r p) in
      let end = >>-resolved m store w h in
      let revised = >>-first m store w h in
      rw (end.0, put_resolved (caching p.id) (update_proposal_cache r p) (m w).0 end.1)
        (
          get-update_proposal_cache r law p _ back,
          rw (has-update_proposal_cache r law p.id p (m w).0.db)
              (revise-IsWarned law now p before w revised),
        ))
