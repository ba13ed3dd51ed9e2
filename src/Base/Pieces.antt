-- ===== src/Base/Pieces.antt =====
-- What the string functions of `Chars` keep: a property of all characters, and the absence of a
-- separator from the pieces that it divides.
use Prim.Native.Nat.{ℕ, zero, suc, ◌-◌}
use mathlib.Core.Path.{◌≡◌, refl}
use mathlib.Core.Logic.{◌≢◌, inl, inr}
use mathlib.Core.Bool.{◌&&◌}
use mathlib.Core.List.{List, [], ◌∷◌, ◌++◌, reverse, reverse_aux}
use native.Mathlib.Omega.{arith}
use lilnouns_monorepo.Base.Tests.{◌==◌, Bool-cases}
use lilnouns_monorepo.Base.Lists.{length, All, take}
use lilnouns_monorepo.Base.Chars.{
  Chars, is_prefix, push, split_from, split, join, is_space, trim_start, trim, remove_all,
}

module _ (P : ℕ → Type 0) where
  abbrev pub AllIn : List Chars → Type 0
  AllIn = All (All P)

  pub All-append : (s t : Chars) → All P s → All P t → All P (s ++ t)
  All-append [] t hs ht = ht
  All-append (c ∷ s) t hs ht = (hs.0, All-append s t hs.1 ht)

  All-reverse_aux : (s t : Chars) → All P s → All P t → All P (reverse_aux s t)
  All-reverse_aux [] t hs ht = ht
  All-reverse_aux (c ∷ s) t hs ht = All-reverse_aux s (c ∷ t) hs.1 (hs.0, ht)

  pub All-reverse : (s : Chars) → All P s → All P (reverse s)
  All-reverse s h = All-reverse_aux s [] h tt

  All-push : (c : ℕ) (ps : List Chars) → P c → AllIn ps → AllIn (push c ps)
  unfolding push
  All-push c [] p h = ((p, tt), tt)
  All-push c (q ∷ ps) p h = ((p, h.0), h.1)

  All-split_from : (sep : Chars) (skip : ℕ) (t : Chars) → All P t → AllIn (split_from sep skip t)
  unfolding split_from
  All-split_from sep zero [] h = (tt, tt)
  All-split_from sep (suc skip) [] h = (tt, tt)
  All-split_from sep (suc skip) (c ∷ t) h = All-split_from sep skip t h.1
  All-split_from sep zero (c ∷ t) h = elim (Bool-cases (is_prefix sep (c ∷ t))) [
    | inl e ↦ rw (e, split_from) (tt, All-split_from sep (length sep - 1) t h.1)
    | inr e ↦ rw (e, split_from) (All-push c _ h.0 (All-split_from sep zero t h.1))
  ]

  pub All-split : (t sep : Chars) → All P t → AllIn (split t sep)
  unfolding split
  All-split t sep h = All-split_from sep 0 t h

  pub All-join : (ps : List Chars) → AllIn ps → All P (join ps [])
  unfolding join
  All-join [] h = tt
  All-join (p ∷ []) h = h.0
  All-join (p ∷ q ∷ ps) h = All-append p _ h.0 (All-join (q ∷ ps) h.1)

  All-trim_start : (t : Chars) → All P t → All P (trim_start t)
  unfolding trim_start
  All-trim_start [] h = tt
  All-trim_start (c ∷ t) h = elim (Bool-cases (is_space c)) [
    | inl e ↦ rw (e, trim_start) (All-trim_start t h.1)
    | inr e ↦ rw (e, trim_start) h
  ]

  pub All-trim : (t : Chars) → All P t → All P (trim t)
  unfolding trim
  All-trim t h = All-reverse _ (All-trim_start _ (All-reverse _ (All-trim_start t h)))

  pub All-remove_all : (t sep : Chars) → All P t → All P (remove_all t sep)
  unfolding remove_all
  All-remove_all t sep h = All-join _ (All-split t sep h)

  pub All-take : (n : ℕ) (ps : List Chars) → AllIn ps → AllIn (take n ps)
  All-take zero ps h = tt
  All-take (suc n) [] h = tt
  All-take (suc n) (p ∷ ps) h = (h.0, All-take n ps h.1)

-- The pieces of a text at a separator of one character do not hold it.
split_from-free : (c : ℕ) (t : Chars) → All (All (λ d. d ≢ c)) (split_from (c ∷ []) 0 t)
unfolding split_from is_prefix
split_from-free c [] = (tt, tt)
split_from-free c (d ∷ t) = elim (Bool-cases (c == d)) [
  | inl e ↦ rw (◌&&◌, e, split_from) (tt, split_from-free c t)
  | inr e ↦ rw (e, split_from) (All-push (λ d. d ≢ c) d _ (ground arith) (split_from-free c t))
]

pub split-free : (c : ℕ) (t : Chars) → All (All (λ d. d ≢ c)) (split t (c ∷ []))
unfolding split
split-free c t = split_from-free c t

push-cons : (c : ℕ) (ps : List Chars) → (p : Chars) × (qs : List Chars) × (push c ps ≡ p ∷ qs)
unfolding push
push-cons c [] = (c ∷ [], [], refl)
push-cons c (p ∷ ps) = (c ∷ p, ps, refl)

-- There is always a first piece.
pub split_from-cons :
    (sep t : Chars) (skip : ℕ) → (p : Chars) × (ps : List Chars) × (split_from sep skip t ≡ p ∷ ps)
unfolding split_from
split_from-cons sep [] zero = ([], [], refl)
split_from-cons sep [] (suc skip) = ([], [], refl)
split_from-cons sep (c ∷ t) (suc skip) = split_from-cons sep t skip
split_from-cons sep (c ∷ t) zero = elim (Bool-cases (is_prefix sep (c ∷ t))) [
  | inl e ↦ rw (e, split_from) ([], split_from sep (length sep - 1) t, refl)
  | inr e ↦ rw (e, split_from) (push-cons c (split_from sep 0 t))
]

-- A part without the first character of the separator belongs to the first piece.
pub split_from-append :
    (s : ℕ) (sep a t p : Chars) (ps : List Chars)
    → All (λ c. c ≢ s) a
    → split_from (s ∷ sep) 0 t ≡ p ∷ ps
    → split_from (s ∷ sep) 0 (a ++ t) ≡ (a ++ p) ∷ ps
unfolding split_from is_prefix push
split_from-append s sep [] t p ps h k = k
split_from-append s sep (c ∷ a) t p ps h k = elim (Bool-cases (s == c)) [
  | inl e ↦ absurd (h.0 (ground arith))
  | inr e ↦ rw (◌&&◌, e, split_from) (rw (split_from-append s sep a t p ps h.1 k))
]
