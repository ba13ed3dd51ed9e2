-- ===== src/Subgraph/Title/Shape.antt =====
-- What a title can look like, and which part of a description it is taken from.
use lilnouns_monorepo.Base.{ℕ, ◌≡◌, refl, ◌≢◌, List, [], ◌∷◌, ◌++◌, All, take, arith}
use lilnouns_monorepo.Base.Chars.{Chars, codes, split, split_from, is_prefix, join, remove_all}
use lilnouns_monorepo.Base.Pieces.{
  AllIn, split_from-cons, split_from-append, All-split, All-join, All-trim, All-remove_all,
  All-take, split-free,
}
use lilnouns_monorepo.Subgraph.Title.{
  drop_before, heading, title_line, plain_title, or_untitled, extract_title,
}

abbrev hash : ℕ
hash = b'#'

abbrev newline : ℕ
newline = 10

abbrev IsNot : ℕ → ℕ → Type 0
IsNot c d = d ≢ c

All-drop_before : (P : ℕ → Type 0) (ps : List Chars) → AllIn P ps → AllIn P (drop_before ps)
unfolding drop_before
All-drop_before P [] h = tt
All-drop_before P (p ∷ []) h = h
All-drop_before P (p ∷ q ∷ ps) h = h.1

heading-hash : (d : Chars) → All (IsNot hash) (heading d)
unfolding heading
heading-hash d =
    let P = IsNot hash in
    let pieces = split d (codes "#") in
    All-join P (drop_before (take 3 pieces))
      (All-drop_before P (take 3 pieces) (All-take P 3 pieces (split-free hash d)))

title_line-hash : (d : Chars) → All (IsNot hash) (title_line d)
unfolding title_line
title_line-hash d =
    let P = IsNot hash in
    let lines = split (heading d) (codes "\n") in
    All-trim P (join (take 1 lines) []) (
      All-join P (take 1 lines)
        (All-take P 1 lines (All-split P (heading d) (codes "\n") (heading-hash d))))

title_line-newline : (d : Chars) → All (IsNot newline) (title_line d)
unfolding title_line
title_line-newline d =
    let P = IsNot newline in
    let lines = split (heading d) (codes "\n") in
    All-trim P (join (take 1 lines) [])
      (All-join P (take 1 lines) (All-take P 1 lines (split-free newline (heading d))))

All-or_untitled :
    (P : ℕ → Type 0) (t : Chars) → All P (codes "Untitled") → All P t → All P (or_untitled t)
unfolding or_untitled
All-or_untitled P [] u h = u
All-or_untitled P (c ∷ t) u h = h

or_untitled-ne_nil : (t : Chars) → or_untitled t ≢ []
unfolding or_untitled
or_untitled-ne_nil [] p = cc
or_untitled-ne_nil (c ∷ t) p = cc

All-plain_title : (P : ℕ → Type 0) (d : Chars) → All P (title_line d) → All P (plain_title d)
unfolding plain_title
All-plain_title P d h =
    All-remove_all P (remove_all (title_line d) (codes "**")) (codes "__")
      (All-remove_all P (title_line d) (codes "**") h)

-- A title is never empty, and has neither a `#` nor a line feed.
pub extract_title_shape :
    (d : Chars)
    → (extract_title d ≢ [])
      × All (λ c. c ≢ b'#') (extract_title d)
      × All (λ c. c ≢ 10) (extract_title d)
unfolding extract_title
extract_title_shape d = (
  or_untitled-ne_nil (plain_title d),
  All-or_untitled (IsNot hash) (plain_title d) (omega arith)
      (All-plain_title (IsNot hash) d (title_line-hash d)),
  All-or_untitled (IsNot newline) (plain_title d) (omega arith)
      (All-plain_title (IsNot newline) d (title_line-newline d)),
)

-- The first piece ends at the first `#`.
split_from-hash :
    (a b : Chars)
    → All (λ c. c ≢ b'#') a
    → split_from (codes "#") 0 (a ++ b'#' ∷ b) ≡ (a ++ []) ∷ split_from (codes "#") 0 b
unfolding split_from is_prefix
split_from-hash a b h =
    split_from-append b'#' [] a (b'#' ∷ b) [] (split_from (codes "#") 0 b) h refl

heading-skip : (a b : Chars) → All (λ c. c ≢ b'#') a → heading (a ++ b'#' ∷ b) ≡ heading (b'#' ∷ b)
unfolding heading split_from is_prefix
heading-skip a b h = let c = split_from-cons (codes "#") b 0 in rw (split_from-hash a b h) (rw c.2)

-- A description's text before its first `#` has no part in its title.
pub extract_title-hash :
    (a b : Chars) → All (λ c. c ≢ b'#') a → extract_title (a ++ b'#' ∷ b) ≡ extract_title (b'#' ∷ b)
unfolding extract_title plain_title title_line
extract_title-hash a b h = rw (heading-skip a b h)
