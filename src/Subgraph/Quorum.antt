-- ===== src/Subgraph/Quorum.antt =====
-- utils/dynamicQuorum.ts: the votes that a proposal needs, from the votes against it.
pub mod Bounds
use lilnouns_monorepo.Base.{Option, none, some}
use lilnouns_monorepo.Base.Int.{ℤ, pos, ◌+ℤ◌, ◌*ℤ◌, min_ℤ}
use lilnouns_monorepo.Subgraph.Host.{GraphTs}

infixl 5 ◌>>=◌
abbrev pub ◌>>=◌ {ℓ κ} : {A : Type ℓ} {B : Type κ} → Option A → (A → Option B) → Option B
none >>= f = none
some a >>= f = f a

-- `<i32>1e6`
abbrev pub million : ℤ
million = pos 1000000

module _ (g : GraphTs) where
  unfoldable pub dynamic_quorum_votes : ℤ → ℤ → ℤ → ℤ → ℤ → Option ℤ
  dynamic_quorum_votes against_votes total_supply min_quorum_votes_bps max_quorum_votes_bps
        quorum_coefficient =
      do
        against_votes_bps ← g.div (against_votes *ℤ pos 10000) total_supply
        quorum_adjustment_bps ← g.div (quorum_coefficient *ℤ against_votes_bps) million
        let adjusted_quorum_bps = quorum_adjustment_bps +ℤ min_quorum_votes_bps
        adjusted ← g.to_i32 adjusted_quorum_bps
        let quorum_bps = min_ℤ max_quorum_votes_bps adjusted
        g.div (total_supply *ℤ quorum_bps) (pos 10000)
