-- ===== src/Subgraph/Dao/Params.antt =====
-- The events that configure the dynamic quorum, and the block from which it is used.
use lilnouns_monorepo.Base.{◌≡◌, refl, ◌∙◌, Option, some, none, List, [], ◌∷◌}
use lilnouns_monorepo.Base.Int.{ℤ}
use lilnouns_monorepo.Subgraph.Host.{GraphTs}
use lilnouns_monorepo.Subgraph.Entities.{DynamicQuorumParams}
use lilnouns_monorepo.Subgraph.Events.{QuorumSet}
use lilnouns_monorepo.Subgraph.Store.{Store, M, ⊤, exec, ◌>>=◌}
use lilnouns_monorepo.Subgraph.Helpers.Found.{
  start_of, params_of, get_or_create_dynamic_quorum_params_lem,
}
use lilnouns_monorepo.Subgraph.Dao.{
  handle_min_quorum_votes_bps_set, handle_max_quorum_votes_bps_set, handle_quorum_coefficient_set,
}

pub data QuorumEvent : Type 0 where
  min_set max_set coefficient_set : QuorumSet → QuorumEvent

abbrev pub block_of : QuorumEvent → ℤ
block_of (min_set e) = e.at.number
block_of (max_set e) = e.at.number
block_of (coefficient_set e) = e.at.number

abbrev pub start_block : Option DynamicQuorumParams → Option ℤ
start_block none = none
start_block (some p) = p.dynamic_quorum_start_block

start_block-params_of :
    (b : ℤ) (o : Option DynamicQuorumParams)
    → (params_of (some b) o).dynamic_quorum_start_block ≡ start_of (start_block o) (some b)
start_block-params_of b none = refl
start_block-params_of b (some p) = refl

module _ (g : GraphTs) where
  unfoldable pub handle : QuorumEvent → M ⊤
  handle (min_set e) = handle_min_quorum_votes_bps_set g e
  handle (max_set e) = handle_max_quorum_votes_bps_set g e
  handle (coefficient_set e) = handle_quorum_coefficient_set g e

  unfoldable pub run : List QuorumEvent → Store → Store
  unfolding handle
  run [] s = s
  run (e ∷ es) s = run es (exec (handle e) s)

  handle-start_block :
      (e : QuorumEvent) (s : Store)
      → start_block (exec (handle e) s).quorum_params
        ≡ start_of (start_block s.quorum_params) (some (block_of e))
  unfolding handle handle_min_quorum_votes_bps_set handle_max_quorum_votes_bps_set
      handle_quorum_coefficient_set
  handle-start_block (min_set e) s =
      rw (get_or_create_dynamic_quorum_params_lem, exec, ◌>>=◌)
        (start_block-params_of e.at.number s.quorum_params)
  handle-start_block (max_set e) s =
      rw (get_or_create_dynamic_quorum_params_lem, exec, ◌>>=◌)
        (start_block-params_of e.at.number s.quorum_params)
  handle-start_block (coefficient_set e) s =
      rw (get_or_create_dynamic_quorum_params_lem, exec, ◌>>=◌)
        (start_block-params_of e.at.number s.quorum_params)

  run-start_block :
      (es : List QuorumEvent) (s : Store) (b : ℤ)
      → start_block s.quorum_params ≡ some b
      → start_block (run es s).quorum_params ≡ some b
  unfolding run
  run-start_block [] s b h = h
  run-start_block (e ∷ es) s b h =
      run-start_block es (exec (handle e) s) b (handle-start_block e s ∙ (rw h))

  -- Over any sequence of configuration events that is not empty, from a store with no start block,
  -- the start block is the block of the first event; a start block that is stored never changes.
  pub first-start_block :
      (e : QuorumEvent) (es : List QuorumEvent) (s : Store)
      → start_block (run (e ∷ es) s).quorum_params
        ≡ start_of (start_block s.quorum_params) (some (block_of e))
  unfolding run
  first-start_block e es s = by_start (start_block s.quorum_params) refl
    where
      by_start :
          (o : Option ℤ)
          → start_block s.quorum_params ≡ o
          → start_block (run es (exec (handle e) s)).quorum_params ≡ start_of o (some (block_of e))
      by_start none h = run-start_block es _ (block_of e) (handle-start_block e s ∙ (rw h))
      by_start (some b) h = run-start_block es _ b (handle-start_block e s ∙ (rw h))
