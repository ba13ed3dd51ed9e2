-- ===== src/Subgraph/Title.antt =====
-- `extractTitle` of nouns-dao.ts.
pub mod Shape
use lilnouns_monorepo.Base.{List, [], ◌∷◌, take}
use lilnouns_monorepo.Base.Chars.{Chars, codes, split, join, trim, remove_all}

-- `if (split.length > 1) split.shift()`
unfoldable pub drop_before : List Chars → List Chars
drop_before [] = []
drop_before (p ∷ []) = p ∷ []
drop_before (p ∷ q ∷ ps) = q ∷ ps

-- What stands between the first `#` and the third, or all if there is none.
unfoldable pub heading : Chars → Chars
unfolding drop_before split join
heading description = join (drop_before (take 3 (split description (codes "#")))) []

-- Its first line.
unfoldable pub title_line : Chars → Chars
unfolding heading
title_line description = trim (join (take 1 (split (heading description) (codes "\n"))) [])

unfoldable pub plain_title : Chars → Chars
unfolding title_line remove_all
plain_title description = remove_all (remove_all (title_line description) (codes "**")) (codes "__")

unfoldable pub or_untitled : Chars → Chars
or_untitled [] = codes "Untitled"
or_untitled (c ∷ t) = c ∷ t

unfoldable pub extract_title : Chars → Chars
unfolding plain_title or_untitled trim
extract_title description = or_untitled (plain_title description)
