-- ===== src/Subgraph/Dao/Votes.antt =====
-- How votes are counted.
use lilnouns_monorepo.Base.{
  All, sym, ℕ, String, ◌≡◌, ap, ◌∙◌, Bool, true, false, some, none, if◌then◌else◌, ◌==◌, List, [],
  ◌∷◌,
}
use lilnouns_monorepo.Base.Int.{int_laws, ℤ, pos, ◌+ℤ◌}
use lilnouns_monorepo.Base.Table.{load, load-save_same}
use lilnouns_monorepo.Subgraph.Host.{GraphTs}
use lilnouns_monorepo.Subgraph.Entities.{Proposal}
use lilnouns_monorepo.Subgraph.Events.{VoteCast}
use lilnouns_monorepo.Subgraph.Store.{Store, exec, ◌>>=◌, ◌>>◌}
use lilnouns_monorepo.Subgraph.Helpers.Found.{
  get_or_create_proposal_found, get_or_create_vote_lem, find_delegate_lem,
  get_or_create_delegate_lem, get_or_create_dynamic_quorum_params_lem,
}
use lilnouns_monorepo.Subgraph.Dao.{handle_vote_cast}
use lilnouns_monorepo.Subgraph.Dao.Params.{start_block}
use lilnouns_monorepo.Subgraph.Dao.Ballot.{
  Ballot, with_ballot, voted, counted, log_unless_found_lem, tally_lem, start_block-params_of,
  quorum_after, finish-some,
}

module _ (g : GraphTs) (s : Store) (e : VoteCast) (b : Ballot) (p : Proposal) where
  abbrev pub proposal_id : String
  proposal_id = g.to_string e.proposal_id

  -- What a vote leaves of the proposal, and of the block from which dynamic quorum is used.
  vote_cast_lem :
      (q : ℤ)
      → b.id ≡ proposal_id
      → load proposal_id s.proposals ≡ some (with_ballot b p)
      → quorum_after g (start_block s.quorum_params) (counted e.support e.votes b) ≡ some q
      → (load proposal_id (exec (handle_vote_cast g e) s).proposals
          ≡ some (with_ballot (voted e.support e.votes q b) p))
        × start_block (exec (handle_vote_cast g e) s).quorum_params ≡ start_block s.quorum_params
  unfolding handle_vote_cast counted
  vote_cast_lem q id h needed =
      rw (get_or_create_proposal_found proposal_id s (with_ballot b p) h, exec, ◌>>=◌)
        (rw (get_or_create_vote_lem, ◌>>=◌)
          (rw (find_delegate_lem, ◌>>=◌)
            (rw (log_unless_found_lem, ◌>>=◌)
              (rw (get_or_create_delegate_lem, ◌>>=◌, ◌>>◌)
                (rw
                  (tally_lem e.support e.votes b p, get_or_create_dynamic_quorum_params_lem, ◌>>=◌)
                  (rw (start_block-params_of, finish-some g _ _ p q _ needed)
                    (
                      load-save_same proposal_id b.id _ s.proposals id,
                      start_block-params_of s.quorum_params,
                    )))))))

  -- A vote on a stored proposal whose ballot is set, where the quorum that is then needed can be
  -- computed, counts its votes for, against or abstained by its support (0 against, 1 for, 2
  -- abstained, and any other nowhere), sets that quorum, and opens the proposal if it was pending;
  -- nothing else of the proposal changes.
  pub vote_counted :
      (q : ℤ)
      → b.id ≡ proposal_id
      → load proposal_id s.proposals ≡ some (with_ballot b p)
      → quorum_after g (start_block s.quorum_params) (counted e.support e.votes b) ≡ some q
      → load proposal_id (exec (handle_vote_cast g e) s).proposals
        ≡ some (with_ballot (voted e.support e.votes q b) p)
  vote_counted q id h needed = (vote_cast_lem q id h needed).0

-- The votes with one support among the events.
unfoldable pub total : ℕ → List VoteCast → ℤ
total k [] = pos 0
total k (e ∷ es) = (if e.support == k then e.votes else pos 0) +ℤ total k es

-- The ballot after the events.
abbrev pub tallied : List VoteCast → Ballot → Ballot
tallied [] b = b
tallied (e ∷ es) b = tallied es (voted e.support e.votes b.quorum_votes b)

tallied_lem :
    (es : List VoteCast) (b : Ballot)
    → ((tallied es b).for_votes ≡ b.for_votes +ℤ total 1 es)
      × ((tallied es b).against_votes ≡ b.against_votes +ℤ total 0 es)
      × ((tallied es b).abstain_votes ≡ b.abstain_votes +ℤ total 2 es)
unfolding total
tallied_lem [] b = (grind int_laws, grind int_laws, grind int_laws)
tallied_lem (e ∷ es) b =
    let rest = tallied_lem es (voted e.support e.votes b.quorum_votes b) in
    (
      add_if (e.support == 1) b.for_votes e.votes (total 1 es) _ rest.0,
      add_if (e.support == 0) b.against_votes e.votes (total 0 es) _ rest.1,
      add_if (e.support == 2) b.abstain_votes e.votes (total 2 es) _ rest.2,
    )
  where
    add_if :
        (c : Bool) (v x t r : ℤ)
        → r ≡ (if c then v +ℤ x else v) +ℤ t
        → r ≡ v +ℤ ((if c then x else pos 0) +ℤ t)
    add_if true v x t r h = grind int_laws
    add_if false v x t r h = grind int_laws

module _ (g : GraphTs) where
  unfoldable pub run : List VoteCast → Store → Store
  run [] s = s
  run (e ∷ es) s = run es (exec (handle_vote_cast g e) s)

  -- Every event is a vote on the proposal.
  abbrev pub AreOn : String → List VoteCast → Type 0
  AreOn id es = All (λ e. g.to_string e.proposal_id ≡ id) es

  run-tallied :
      (es : List VoteCast) (s : Store) (b : Ballot) (p : Proposal)
      → AreOn b.id es
      → start_block s.quorum_params ≡ none
      → load b.id s.proposals ≡ some (with_ballot b p)
      → load b.id (run es s).proposals ≡ some (with_ballot (tallied es b) p)
  unfolding run counted
  run-tallied [] s b p on static h = h
  run-tallied (e ∷ es) s b p (at_id, on) static h =
      let cast =
        vote_cast_lem g s e b p b.quorum_votes (sym at_id) (ap (λ k. load k s.proposals) at_id ∙ h)
          (rw static) in
      run-tallied es _ (voted e.support e.votes b.quorum_votes b) p on (cast.1 ∙ static)
        (ap (λ k. load k (exec (handle_vote_cast g e) s).proposals) (sym at_id) ∙ cast.0)

  -- Over any sequence of votes on a stored proposal whose ballot is set, while no block is set from
  -- which dynamic quorum is used, the votes for, against and abstained each grow by the sum of the
  -- votes that were cast with their support.
  pub votes_tallied :
      (es : List VoteCast) (s : Store) (b : Ballot) (p : Proposal)
      → AreOn b.id es
      → start_block s.quorum_params ≡ none
      → load b.id s.proposals ≡ some (with_ballot b p)
      → (after : Ballot) × (load b.id (run es s).proposals ≡ some (with_ballot after p))
        × (after.for_votes ≡ b.for_votes +ℤ total 1 es)
        × (after.against_votes ≡ b.against_votes +ℤ total 0 es)
        × (after.abstain_votes ≡ b.abstain_votes +ℤ total 2 es)
  votes_tallied es s b p on static h =
      let sums = tallied_lem es b in
      (tallied es b, run-tallied es s b p on static h, sums.0, sums.1, sums.2)
