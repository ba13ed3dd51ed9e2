-- ===== src/Subgraph/Host.antt =====
-- What the handlers use of `@graphprotocol/graph-ts`, which is not part of the repository: the
-- conversions of ids, and the two operations of `BigInt` that can trap (`none`). A `BigInt` is an
-- integer, and its sums, differences, products and comparisons are those of the integers.
use lilnouns_monorepo.Base.{ℕ, ◌≡◌, ◌<◌, ◌/◌, ◌^◌, String, List, Option, none, some}
use lilnouns_monorepo.Base.Int.{ℤ, pos}

abbrev pub Bytes : Type 0
Bytes = List ℕ

pub record GraphTs : Type 0 where
  pub to_string : ℤ → String  -- BigInt.toString
  pub to_hex : Bytes → String  -- Bytes.toHex, Bytes.toHexString
  pub div : ℤ → ℤ → Option ℤ  -- BigInt.div
  pub to_i32 : ℤ → Option ℤ  -- BigInt.toI32

-- What is documented of the two: division by a positive number rounds down a number that is not
-- negative, division by zero traps, and a number that fits an `i32` converts to itself.
pub record IsLawful (g : GraphTs) : Type 0 where
  pub div_nonneg : (a b : ℕ) → 0 < b → g.div (pos a) (pos b) ≡ some (pos (a / b))
  pub div_zero : (a : ℤ) → g.div a (pos 0) ≡ none
  pub to_i32_fits : (a : ℕ) → a < 2 ^ 31 → g.to_i32 (pos a) ≡ some (pos a)
