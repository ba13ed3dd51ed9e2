-- ===== src/Base/Table.antt =====
-- The store's table of one entity type: the entities by id, in the order in which they were created.
use Prim.Native.String.{String}
use mathlib.Core.Path.{◌≡◌, refl, ap, sym, ◌∙◌}
use mathlib.Core.Logic.{◌≢◌}
use mathlib.Core.Option.{Option, none, some}
use mathlib.Core.List.{List, [], ◌∷◌}
use native.Mathlib.Omega.{arith}
use text.Mathlib.TextEquality.{eq_iff}
use text.Mathlib.TextPositions.{eq_refl}
use lilnouns_monorepo.Base.Tests.{str_eq, if◌then◌else◌, str_eq-false}

abbrev pub Table {ℓ} : Type ℓ → Type ℓ
Table V = List (String × V)

module _ {ℓ} {V : Type ℓ} where
  -- `Entity.load(id)`
  unfoldable pub load : String → Table V → Option V
  load k [] = none
  load k ((j, v) ∷ t) = if str_eq j k then some v else load k t

  -- `entity.save()`
  unfoldable pub save : String → V → Table V → Table V
  save k v [] = (k, v) ∷ []
  save k v ((j, w) ∷ t) = if str_eq j k then (k, v) ∷ t else (j, w) ∷ save k v t

  pub load-save :
      (j k : String) (v : V) (t : Table V)
      → load j (save k v t) ≡ (if str_eq k j then some v else load j t)
  unfolding load save
  load-save j k v [] = refl
  load-save j k v ((i, w) ∷ t) =
      ground (arith, eq_iff k j, eq_iff i k, eq_iff i j, load-save j k v t)

  pub load-save_self : (k : String) (v : V) (t : Table V) → load k (save k v t) ≡ some v
  load-save_self k v t = simp (load-save, eq_refl)

  pub load-save_same : (j k : String) (v : V) (t : Table V) → k ≡ j → load j (save k v t) ≡ some v
  load-save_same j k v t h = ap (λ i. load i (save k v t)) (sym h) ∙ load-save_self k v t

  pub load-save_ne : (j k : String) (v : V) (t : Table V) → k ≢ j → load j (save k v t) ≡ load j t
  load-save_ne j k v t h = rw (load-save, str_eq-false k j h)

  -- Every entity stands under its own id.
  abbrev pub IsKeyed : (V → String) → Table V → Type ℓ
  IsKeyed id_of t = (k : String) (v : V) → load k t ≡ some v → id_of v ≡ k

  pub save-IsKeyed :
      (id_of : V → String) (k : String) (v : V) (t : Table V)
      → id_of v ≡ k
      → IsKeyed id_of t
      → IsKeyed id_of (save k v t)
  save-IsKeyed id_of k v t e h j w = rw load-save (keyed_if (load j t) (h j w))
    where
      keyed_if :
          (o : Option V)
          → (o ≡ some w → id_of w ≡ j)
          → (if str_eq k j then some v else o) ≡ some w
          → id_of w ≡ j
      keyed_if o h' p = ground (arith, eq_iff k j)
