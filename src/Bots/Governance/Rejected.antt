-- ===== src/Bots/Governance/Rejected.antt =====
-- What a run for a proposal leaves behind when it rejects.
use lilnouns_monorepo.Base.{
  ℕ, ◌≡◌, refl, ap, ◌∙◌, ◌⊎◌, Bool, true, false, not, ◌&&◌, Option, none, some, List, [], ◌∷◌,
  Bool-cases, inl, inr,
}
use lilnouns_monorepo.Bots.Types.{GovernanceVote, GovernanceProposal}
use lilnouns_monorepo.Bots.Redis.{Redis}
use lilnouns_monorepo.Bots.Proposals.{extract_new_votes, is_at_risk_of_expiry}
use lilnouns_monorepo.Bots.Cache.{
  get_proposal_cache, has_warned_of_expiry, set_proposal_expiry_warning_sent,
}
use lilnouns_monorepo.Bots.World.{
  World, M, ◌>>◌, when, updated_proposal_status, governance_vote, proposal_at_risk_of_expiry,
}
use lilnouns_monorepo.Bots.Governance.{
  status_eq, Call, marking, caching, put, announce, announce_votes, warn_of_expiry, revise,
  process_proposal,
}

module _ {Db : Type 0} (r : Redis Db) (outside : Call → Bool) where
  abbrev KeepsDb : M Db → Type 0
  KeepsDb m = (w : World Db) → (m w).0.db ≡ w.db

  -- Only a rejected run has the cache as it was.
  abbrev RejectsEarly : M Db → Type 0
  RejectsEarly m = (w : World Db) → (m w).1 ≡ false → (m w).0.db ≡ w.db

  >>-KeepsDb : (m k : M Db) → KeepsDb m → KeepsDb k → KeepsDb (m >> k)
  >>-KeepsDb m k hm hk w = elim (Bool-cases (m w).1) [
    | inl e ↦ rw e (hk (m w).0 ∙ hm w)
    | inr e ↦ rw e (hm w)
  ]

  >>-RejectsEarly : (m k : M Db) → KeepsDb m → RejectsEarly k → RejectsEarly (m >> k)
  >>-RejectsEarly m k hm hk w = elim (Bool-cases (m w).1) [
    | inl e ↦ rw e (λ h. hk (m w).0 h ∙ hm w)
    | inr e ↦ rw e (λ h. hm w)
  ]

  -- A write that rejects writes nothing.
  put-RejectsEarly : (call : Call) (f : Db → Db) → RejectsEarly (put r outside call f)
  unfolding put
  put-RejectsEarly call f w = elim (Bool-cases (outside call)) [
    | inl e ↦ rw (put, e) (λ h. cc)
    | inr e ↦ rw (put, e) (λ h. refl)
  ]

  when-KeepsDb : (c : Bool) (m : M Db) → KeepsDb m → KeepsDb (when c m)
  when-KeepsDb true m h w = h w
  when-KeepsDb false m h w = refl

  votes-KeepsDb :
      (p : GovernanceProposal) (vs : List GovernanceVote) → KeepsDb (announce_votes r outside p vs)
  unfolding announce_votes announce
  votes-KeepsDb p [] w = refl
  votes-KeepsDb p (v ∷ vs) w = votes-KeepsDb p vs (announce r outside (governance_vote p v) w).0

  warn_of_expiry-RejectsEarly :
      (now : ℕ) (p : GovernanceProposal) → RejectsEarly (warn_of_expiry r outside now p)
  unfolding warn_of_expiry announce
  warn_of_expiry-RejectsEarly now p w =
      elim (Bool-cases (is_at_risk_of_expiry now p && not (has_warned_of_expiry r p.id w.db))) [
        | inr e ↦ rw e (λ h. refl)
        | inl e ↦ rw e (
            >>-RejectsEarly (announce r outside (proposal_at_risk_of_expiry p))
              (put r outside (marking p.id) (set_proposal_expiry_warning_sent r p.id)) (λ v. refl)
              (put-RejectsEarly (marking p.id) (set_proposal_expiry_warning_sent r p.id)) w)
      ]

  told-KeepsDb :
      (before p : GovernanceProposal)
      → KeepsDb (
          when
            (not (status_eq before.status p.status))
            (announce r outside (updated_proposal_status p))
          >> announce_votes r outside p (extract_new_votes before p))
  unfolding announce
  told-KeepsDb before p =
      let changed = not (status_eq before.status p.status) in
      >>-KeepsDb (when changed (announce r outside (updated_proposal_status p)))
        (announce_votes r outside p (extract_new_votes before p))
        (when-KeepsDb changed _ (λ v. refl)) (votes-KeepsDb p (extract_new_votes before p))

  revise-RejectsEarly :
      (now : ℕ) (cached : Option GovernanceProposal) (p : GovernanceProposal)
      → RejectsEarly (revise r outside now cached p)
  unfolding revise announce
  revise-RejectsEarly now none p w h = refl
  revise-RejectsEarly now (some before) p w h =
      let changed = not (status_eq before.status p.status) in
      let tell = when changed (announce r outside (updated_proposal_status p)) in
      let votes = announce_votes r outside p (extract_new_votes before p) in
      >>-RejectsEarly (tell >> votes) (warn_of_expiry r outside now p) (told-KeepsDb before p)
        (warn_of_expiry-RejectsEarly now p) w h

  -- At most the mark of the proposal's warning is written.
  abbrev MarksOnly : GovernanceProposal → M Db → Type 0
  MarksOnly p m =
      (w : World Db)
      → ((m w).0.db ≡ w.db) ⊎ ((m w).0.db ≡ set_proposal_expiry_warning_sent r p.id w.db)

  >>-MarksOnly :
      (p : GovernanceProposal) (m k : M Db) → KeepsDb m → MarksOnly p k → MarksOnly p (m >> k)
  >>-MarksOnly p m k hm hk w = elim (Bool-cases (m w).1) [
    | inr e ↦ rw e (inl (hm w))
    | inl e ↦ rw e (elim (hk (m w).0) [
      | inl same ↦ inl (same ∙ hm w)
      | inr marked ↦ inr (marked ∙ ap (set_proposal_expiry_warning_sent r p.id) (hm w))
    ])
  ]

  put-MarksOnly :
      (p : GovernanceProposal)
      → MarksOnly p (put r outside (marking p.id) (set_proposal_expiry_warning_sent r p.id))
  unfolding put
  put-MarksOnly p w = elim (Bool-cases (outside (marking p.id))) [
    | inl e ↦ rw (put, e) (inr refl)
    | inr e ↦ rw (put, e) (inl refl)
  ]

  warn_of_expiry-MarksOnly :
      (now : ℕ) (p : GovernanceProposal) → MarksOnly p (warn_of_expiry r outside now p)
  unfolding warn_of_expiry announce
  warn_of_expiry-MarksOnly now p w =
      elim (Bool-cases (is_at_risk_of_expiry now p && not (has_warned_of_expiry r p.id w.db))) [
        | inr e ↦ rw e (inl refl)
        | inl e ↦ rw e (
            >>-MarksOnly p (announce r outside (proposal_at_risk_of_expiry p))
              (put r outside (marking p.id) (set_proposal_expiry_warning_sent r p.id)) (λ v. refl)
              (put-MarksOnly p) w)
      ]

  revise-MarksOnly :
      (now : ℕ) (cached : Option GovernanceProposal) (p : GovernanceProposal)
      → MarksOnly p (revise r outside now cached p)
  unfolding revise announce
  revise-MarksOnly now none p w = inl refl
  revise-MarksOnly now (some before) p w =
      let changed = not (status_eq before.status p.status) in
      let tell = when changed (announce r outside (updated_proposal_status p)) in
      let votes = announce_votes r outside p (extract_new_votes before p) in
      >>-MarksOnly p (tell >> votes) (warn_of_expiry r outside now p) (told-KeepsDb before p)
        (warn_of_expiry-MarksOnly now p) w

  -- Where a run for a proposal rejects, the cache is as it was, unless the write of the proposal rejects:
  -- then at most the mark of its warning was written.
  pub process_proposal_rejected :
      (now : ℕ) (p : GovernanceProposal) (w : World Db)
      → (process_proposal r outside now p w).1 ≡ false
      → ((process_proposal r outside now p w).0.db ≡ w.db)
        ⊎ ((outside (caching p.id) ≡ false)
            × ((process_proposal r outside now p w).0.db
                ≡ set_proposal_expiry_warning_sent r p.id w.db))
  unfolding process_proposal put
  process_proposal_rejected now p w =
      let cached = get_proposal_cache r p.id w.db in
      let m = revise r outside now cached p in
      elim (Bool-cases (m w).1) [
        | inr e ↦ rw e (λ h. inl (revise-RejectsEarly now cached p w e))
        | inl e ↦ rw e (elim (Bool-cases (outside (caching p.id))) [
          | inl up ↦ rw (put, up) (λ h. cc)
          | inr down ↦
              rw (put, down)
                (λ h. elim (revise-MarksOnly now cached p w) [
                  | inl same ↦ inl same
                  | inr marked ↦ inr (refl, marked)
                ])
        ])
      ]
