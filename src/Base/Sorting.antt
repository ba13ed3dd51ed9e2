-- ===== src/Base/Sorting.antt =====
-- `Array.sort`, which is stable, by a test of what comes first.
use Prim.Native.Nat.{suc}
use mathlib.Core.Path.{◌≡◌, refl, ap, ◌∙◌}
use mathlib.Core.Logic.{inl, inr}
use mathlib.Core.Bool.{Bool, true, false}
use mathlib.Core.List.Perm
use mathlib.Core.List.{List, [], ◌∷◌, ◌++◌, Perm, reverse, reverse-append}
use native.Mathlib.Omega.{arith}
use lilnouns_monorepo.Base.Tests.{Bool-cases, if◌then◌else◌}
use lilnouns_monorepo.Base.Lists.{All, length, length-append}

module _ {ℓ} {A : Type ℓ} (before : A → A → Bool) where
  unfoldable pub insert : A → List A → List A
  insert x [] = x ∷ []
  insert x (y ∷ ys) = if before y x then y ∷ insert x ys else x ∷ y ∷ ys

  unfoldable pub sort : List A → List A
  unfolding insert
  sort [] = []
  sort (x ∷ xs) = insert x (sort xs)

  -- Nothing that comes later is before something that comes earlier.
  abbrev pub IsSortedBy : List A → Type 0
  IsSortedBy [] = Unit
  IsSortedBy (x ∷ xs) = All (λ y. before y x ≡ false) xs × IsSortedBy xs

  All-insert {κ} : (P : A → Type κ) (x : A) (ys : List A) → P x → All P ys → All P (insert x ys)
  unfolding insert
  All-insert P x [] p h = (p, tt)
  All-insert P x (y ∷ ys) p h = elim (Bool-cases (before y x)) [
    | inl e ↦ rw e (h.0, All-insert P x ys p h.1)
    | inr e ↦ rw e (p, h)
  ]

  insert-perm : (x : A) (ys : List A) → Perm (insert x ys) (x ∷ ys)
  unfolding insert
  insert-perm x [] = Perm.rfl
  insert-perm x (y ∷ ys) = elim (Bool-cases (before y x)) [
    | inl e ↦ rw (e, insert) (Perm.trans (Perm.cons y (insert-perm x ys)) (Perm.swap x y ys))
    | inr e ↦ rw (e, insert) Perm.rfl
  ]

  pub sort-perm : (xs : List A) → Perm (sort xs) xs
  unfolding sort
  sort-perm [] = Perm.rfl
  sort-perm (x ∷ xs) = Perm.trans (insert-perm x (sort xs)) (Perm.cons x (sort-perm xs))

  length-insert : (x : A) (ys : List A) → length (insert x ys) ≡ suc (length ys)
  unfolding insert
  length-insert x [] = refl
  length-insert x (y ∷ ys) = elim (Bool-cases (before y x)) [
    | inl e ↦ rw e (ap suc (length-insert x ys))
    | inr e ↦ rw e
  ]

  pub length-sort : (xs : List A) → length (sort xs) ≡ length xs
  unfolding sort
  length-sort [] = refl
  length-sort (x ∷ xs) = length-insert x (sort xs) ∙ ap suc (length-sort xs)

-- A total order with ties.
module _ {ℓ} {A : Type ℓ} (before : A → A → Bool)
    (asym : (a b : A) → before a b ≡ true → before b a ≡ false)
    (trans : (a b c : A) → before b a ≡ false → before c b ≡ false → before c a ≡ false) where
  later :
      (x y : A) (ys : List A)
      → before y x ≡ false
      → All (λ z. before z y ≡ false) ys
      → All (λ z. before z x ≡ false) ys
  later x y [] h hs = tt
  later x y (z ∷ zs) h hs = (trans x y z h hs.0, later x y zs h hs.1)

  insert-IsSortedBy :
      (x : A) (ys : List A) → IsSortedBy before ys → IsSortedBy before (insert before x ys)
  unfolding insert
  insert-IsSortedBy x [] h = (tt, tt)
  insert-IsSortedBy x (y ∷ ys) h = elim (Bool-cases (before y x)) [
    | inl e ↦ rw e (
      All-insert before (λ z. before z y ≡ false) x ys (asym y x e) h.0,
      insert-IsSortedBy x ys h.1,
    )
    | inr e ↦ rw e ((e, later x y ys e h.0), h)
  ]

  pub sort-IsSortedBy : (xs : List A) → IsSortedBy before (sort before xs)
  unfolding sort
  sort-IsSortedBy [] = tt
  sort-IsSortedBy (x ∷ xs) = insert-IsSortedBy x (sort before xs) (sort-IsSortedBy xs)

module _ {ℓ κ} {A : Type ℓ} (P : A → Type κ) where
  All-append : (xs ys : List A) → All P xs → All P ys → All P (xs ++ ys)
  All-append [] ys h k = k
  All-append (x ∷ xs) ys (h, hs) k = (h, All-append xs ys hs k)

  All-reverse : (xs : List A) → All P xs → All P (reverse xs)
  All-reverse [] h = h
  All-reverse (x ∷ xs) (h, hs) =
      rw (reverse-append (x ∷ []) xs) (All-append (reverse xs) (x ∷ []) (All-reverse xs hs) (h, tt))

append-IsSortedBy {ℓ} :
    {A : Type ℓ} (before : A → A → Bool) (x : A) (xs : List A)
    → IsSortedBy before xs
    → All (λ y. before x y ≡ false) xs
    → IsSortedBy before (xs ++ x ∷ [])
append-IsSortedBy before x [] h k = (tt, tt)
append-IsSortedBy before x (y ∷ ys) (h, hs) (k, ks) = (
  All-append (λ z. before z y ≡ false) ys (x ∷ []) h (k, tt),
  append-IsSortedBy before x ys hs ks,
)

-- A sorted list backwards is sorted by the opposite test.
pub reverse-IsSortedBy {ℓ} :
    {A : Type ℓ} (before : A → A → Bool) (xs : List A)
    → IsSortedBy before xs
    → IsSortedBy (λ a b. before b a) (reverse xs)
reverse-IsSortedBy before [] h = h
reverse-IsSortedBy before (x ∷ xs) (h, hs) = rw (reverse-append (x ∷ []) xs) (
    append-IsSortedBy (λ a b. before b a) x (reverse xs) (reverse-IsSortedBy before xs hs)
      (All-reverse (λ y. before y x ≡ false) xs h))

pub length-reverse {ℓ} : {A : Type ℓ} (xs : List A) → length (reverse xs) ≡ length xs
length-reverse [] = refl
length-reverse (x ∷ xs) =
    rw (reverse-append (x ∷ []) xs)
      (omega (arith, length-append (reverse xs) (x ∷ []), length-reverse xs))
