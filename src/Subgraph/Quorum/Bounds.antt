-- ===== src/Subgraph/Quorum/Bounds.antt =====
-- The dynamic quorum in numbers: its formula, its bounds, and that it grows with the votes against.
use Prim.Native.Nat.{min}
use lilnouns_monorepo.Base.{ℕ, ◌+◌, ◌*◌, ◌/◌, ◌≤◌, ◌<◌, ◌^◌, ◌≡◌, some, arith}
use lilnouns_monorepo.Base.Int.{pos, ◌+ℤ◌, ◌*ℤ◌, min_ℤ}
use lilnouns_monorepo.Subgraph.Host.{GraphTs, IsLawful}
use lilnouns_monorepo.Subgraph.Quorum.{dynamic_quorum_votes, ◌>>=◌}

-- The basis points before the cap.
abbrev pub adjusted_bps : ℕ → ℕ → ℕ → ℕ → ℕ
adjusted_bps against supply min_bps coefficient =
    coefficient * (against * 10000 / supply) / 1000000 + min_bps

pub quorum : ℕ → ℕ → ℕ → ℕ → ℕ → ℕ
quorum against supply min_bps max_bps coefficient =
    supply * min max_bps (adjusted_bps against supply min_bps coefficient) / 10000

+ℤ_pos : (a b : ℕ) → pos a +ℤ pos b ≡ pos (a + b)
unfolding ◌+ℤ◌
+ℤ_pos a b = ground arith

*ℤ_pos : (a b : ℕ) → pos a *ℤ pos b ≡ pos (a * b)
unfolding ◌*ℤ◌
*ℤ_pos a b = ground arith

min_ℤ_pos : (a b : ℕ) → min_ℤ (pos a) (pos b) ≡ pos (min a b)
min_ℤ_pos a b = ground arith

div_mono : (a b k : ℕ) → a ≤ b → a / k ≤ b / k
div_mono a b k h = grind arith

mul_mono : (k a b : ℕ) → a ≤ b → k * a ≤ k * b
mul_mono k a b h = grind arith

min_mono : (m k x y : ℕ) → x ≤ y → min m (x + k) ≤ min m (y + k)
min_mono m k x y h = omega arith

quorum-le :
    (against supply min_bps max_bps coefficient : ℕ)
    → (supply * min max_bps min_bps / 10000 ≤ quorum against supply min_bps max_bps coefficient)
      × (quorum against supply min_bps max_bps coefficient ≤ supply * max_bps / 10000)
unfolding quorum
quorum-le against supply min_bps max_bps coefficient =
    let bps = adjusted_bps against supply min_bps coefficient in
    (
      div_mono _ _ 10000 (mul_mono supply (min max_bps min_bps) (min max_bps bps) (omega arith)),
      div_mono _ _ 10000 (mul_mono supply (min max_bps bps) max_bps (omega arith)),
    )

quorum_mono :
    (a a' supply min_bps max_bps coefficient : ℕ)
    → a ≤ a'
    → quorum a supply min_bps max_bps coefficient ≤ quorum a' supply min_bps max_bps coefficient
unfolding quorum
quorum_mono a a' supply min_bps max_bps coefficient h =
    let k =
      div_mono _ _ 1000000
        (mul_mono coefficient _ _ (div_mono (a * 10000) (a' * 10000) supply (omega arith))) in
    div_mono _ _ 10000 (mul_mono supply _ _ (min_mono max_bps min_bps _ _ k))

module _ (g : GraphTs) (l : IsLawful g) where
  pub dynamic_quorum_votes_lem :
      (against supply min_bps max_bps coefficient : ℕ)
      → 0 < supply
      → adjusted_bps against supply min_bps coefficient < 2 ^ 31
      → dynamic_quorum_votes g
          (pos against)
          (pos supply)
          (pos min_bps)
          (pos max_bps)
          (pos coefficient)
        ≡ some (pos (quorum against supply min_bps max_bps coefficient))
  unfolding dynamic_quorum_votes quorum
  dynamic_quorum_votes_lem against supply min_bps max_bps coefficient h fits =
      rw (*ℤ_pos, l.div_nonneg _ supply h)
        (rw (*ℤ_pos, l.div_nonneg _ 1000000 (omega arith))
          (rw (+ℤ_pos, l.to_i32_fits _ fits, ◌>>=◌)
            (rw (min_ℤ_pos, *ℤ_pos, l.div_nonneg _ 10000 (omega arith)))))

  -- For votes, supply, basis points and a coefficient that are not negative, a supply that is not
  -- zero, and basis points that fit an `i32`, the quorum is computed, and it is the supply's share at
  -- the basis points: the minimum, raised by the coefficient's part per million of the share of votes
  -- against, and capped at the maximum. It lies between the supply's share at the smaller of the
  -- minimum and the maximum, and its share at the maximum.
  pub dynamic_quorum_votes_bounds :
      (against supply min_bps max_bps coefficient : ℕ)
      → 0 < supply
      → adjusted_bps against supply min_bps coefficient < 2 ^ 31
      → let q = quorum against supply min_bps max_bps coefficient in
        (dynamic_quorum_votes g
            (pos against)
            (pos supply)
            (pos min_bps)
            (pos max_bps)
            (pos coefficient)
          ≡ some (pos q))
        × (supply * min max_bps min_bps / 10000 ≤ q)
        × (q ≤ supply * max_bps / 10000)
  dynamic_quorum_votes_bounds against supply min_bps max_bps coefficient h fits =
      let b = quorum-le against supply min_bps max_bps coefficient in
      (dynamic_quorum_votes_lem against supply min_bps max_bps coefficient h fits, b.0, b.1)

  -- Under the same conditions, more votes against never lower the quorum.
  pub dynamic_quorum_votes_mono :
      (a a' supply min_bps max_bps coefficient : ℕ) {q q' : ℕ}
      → 0 < supply
      → a ≤ a'
      → adjusted_bps a supply min_bps coefficient < 2 ^ 31
      → adjusted_bps a' supply min_bps coefficient < 2 ^ 31
      → dynamic_quorum_votes g (pos a) (pos supply) (pos min_bps) (pos max_bps) (pos coefficient)
        ≡ some (pos q)
      → dynamic_quorum_votes g (pos a') (pos supply) (pos min_bps) (pos max_bps) (pos coefficient)
        ≡ some (pos q')
      → q ≤ q'
  dynamic_quorum_votes_mono a a' supply min_bps max_bps coefficient h more fits fits' e e' =
      ground (
        arith,
        dynamic_quorum_votes_lem a supply min_bps max_bps coefficient h fits,
        dynamic_quorum_votes_lem a' supply min_bps max_bps coefficient h fits',
        quorum_mono a a' supply min_bps max_bps coefficient more,
      )
