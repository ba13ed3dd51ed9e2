-- ===== src/Web/ProposalForm/Described.antt =====
-- The description of a proposal from the form, as the subgraph reads it.
use lilnouns_monorepo.Base.{
  ◌≡◌, refl, ap, ◌∙◌, ◌≢◌, List, [], ◌∷◌, ◌++◌, All, take, arith, append-nil, append_assoc,
}
use lilnouns_monorepo.Base.Chars.{
  Chars, codes, split, split_from, is_prefix, push, join, remove_all, is_space, trim, trim_start,
}
use lilnouns_monorepo.Base.Pieces.{split_from-cons, split_from-append}
use lilnouns_monorepo.Subgraph.Title.{
  drop_before, heading, title_line, plain_title, or_untitled, extract_title,
}
use lilnouns_monorepo.Subgraph.Dao.{unescape_lines}
use lilnouns_monorepo.Web.ProposalForm.{description_of}

join-append :
    (a p sep : Chars) (ps : List Chars) → join ((a ++ p) ∷ ps) sep ≡ a ++ join (p ∷ ps) sep
unfolding join
join-append a p sep [] = refl
join-append a p sep (q ∷ ps) = append_assoc a p _

-- What has no backslash stays.
unescape_lines-append :
    (a t : Chars) → All (λ c. c ≢ 92) a → unescape_lines (a ++ t) ≡ a ++ unescape_lines t
unfolding unescape_lines split
unescape_lines-append a t h =
    let sep : Chars = 92 ∷ b'n' ∷ [] in
    let (p, ps, k) = split_from-cons sep t 0 in
    rw (split_from-append 92 (b'n' ∷ []) a t p ps h k, k) (join-append a p (codes "\n") ps)

-- The pieces of a heading, of which the first is a line and more.
after :
    (line p : Chars) (ps : List Chars)
    → (q : Chars) × (join (take 2 ((line ++ 10 ∷ p) ∷ ps)) [] ≡ line ++ 10 ∷ q)
unfolding join
after line p [] = (p, refl)
after line p (q ∷ ps) = (p ++ q, append_assoc line (10 ∷ p) q)

-- The first line behind the `#` is a part of the heading, with the end of the line.
heading-line :
    (line r : Chars)
    → All (λ c. c ≢ b'#') line
    → (q : Chars) × (heading (b'#' ∷ (line ++ 10 ∷ r)) ≡ line ++ 10 ∷ q)
unfolding heading drop_before split split_from is_prefix push
heading-line line r h =
    let (p, ps, k) = split_from-cons (codes "#") r 0 in
    let e : split_from (codes "#") 0 (10 ∷ r) ≡ (10 ∷ p) ∷ ps = rw k refl in
    rw (split_from-append b'#' [] line (10 ∷ r) (10 ∷ p) ps h e) (after line p ps)

title_line-line :
    (line r : Chars)
    → All (λ c. c ≢ b'#') line
    → All (λ c. c ≢ 10) line
    → title_line (b'#' ∷ (line ++ 10 ∷ r)) ≡ trim line
unfolding title_line split split_from is_prefix join
title_line-line line r h k =
    let (q, e) = heading-line line r h in
    rw (e, split_from-append 10 [] line (10 ∷ q) [] (split_from (codes "\n") 0 q) k refl)
      (ap trim (append-nil line))

unescape_lines-description_of :
    (title body : Chars)
    → All (λ c. c ≢ 92) title
    → unescape_lines (description_of title body)
      ≡ b'#' ∷ ((32 ∷ title) ++ 10 ∷ unescape_lines (10 ∷ body))
unfolding description_of
unescape_lines-description_of title body h =
    unescape_lines-append (b'#' ∷ 32 ∷ title) (10 ∷ 10 ∷ body) (omega arith, (omega arith, h))
    ∙ ap (λ t. b'#' ∷ ((32 ∷ title) ++ t))
        (unescape_lines-append (10 ∷ []) (10 ∷ body) (omega arith))

-- A title without the marks of bold and italics.
abbrev without_marks : Chars → Chars
without_marks t = or_untitled (remove_all (remove_all t (codes "**")) (codes "__"))

-- The title in the form, without its outer spaces and those marks.
abbrev pub shown_title : Chars → Chars
shown_title title = without_marks (trim title)

-- A title of one line without `#` and backslash becomes the title that the subgraph finds in the
-- description, whatever the body is, but for its outer spaces and the marks of bold and italics.
pub extract_title-description_of :
    (title body : Chars)
    → All (λ c. c ≢ b'#') title
    → All (λ c. c ≢ 10) title
    → All (λ c. c ≢ 92) title
    → extract_title (unescape_lines (description_of title body)) ≡ shown_title title
unfolding extract_title plain_title trim trim_start is_space
extract_title-description_of title body h k b =
    ap extract_title (unescape_lines-description_of title body b)
    ∙ ap without_marks (
        title_line-line (32 ∷ title) (unescape_lines (10 ∷ body)) (omega arith, h) (omega arith, k))
