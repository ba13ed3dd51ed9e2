-- ===== src/Api/Ideas/Sorting.antt =====
-- The order of the ideas that are found, and which they are.
use lilnouns_monorepo.Base.{
  ℕ, Bool, false, ◌&&◌, ◌||◌, ltb, str_eq, ◌≡◌, ◌⊎◌, inl, inr, refl, String, List, [], ◌∷◌, All,
  Option, none, some,
}
use lilnouns_monorepo.Base.Int.{ltb_ℤ}
use lilnouns_monorepo.Api.Prisma.{Prisma, rejected}
use lilnouns_monorepo.Api.Ideas.{RatedIdea, find_where, profile_tab_filter}
use lilnouns_monorepo.Api.Votes.{FloorPercent}

-- The keys of an order.
abbrev pub is_sort_key : String → Bool
is_sort_key key =
    str_eq key ""
    || str_eq key "LATEST"
    || str_eq key "OLDEST"
    || str_eq key "VOTES_DESC"
    || str_eq key "VOTES_ASC"

-- That one idea stands before another is wrong: later ideas come first without a key and for the latest,
-- earlier ones for the oldest, and more or fewer votes for the orders by votes.
abbrev pub is_misplaced : String → RatedIdea → RatedIdea → Bool
is_misplaced key a b =
    (str_eq key "" || str_eq key "LATEST") && ltb a.ui.idea.created_at b.ui.idea.created_at
    || str_eq key "OLDEST" && ltb b.ui.idea.created_at a.ui.idea.created_at
    || str_eq key "VOTES_DESC" && ltb_ℤ a.votecount b.votecount
    || str_eq key "VOTES_ASC" && ltb_ℤ b.votecount a.votecount

-- No idea is misplaced before a later one.
abbrev pub IsInOrder : String → List RatedIdea → Type 0
IsInOrder key [] = Unit {0}
IsInOrder key (x ∷ xs) = All (λ y. is_misplaced key x y ≡ false) xs × IsInOrder key xs

-- An unknown date or tab is refused.
find_where_refused :
    {Db : Type 0} (prisma : Prisma Db) (floor_percent : FloorPercent) (now : ℕ) (key : String)
    (tags : List String) (date : Option (ℕ × ℕ)) (wallet tab : String) (hide_deleted : Bool)
    (d : Db)
    → (date ≡ none) ⊎ (profile_tab_filter tab wallet ≡ none)
    → (e : String) × (find_where prisma floor_percent now key tags date wallet tab hide_deleted d
        ≡ (rejected e, d))
unfolding find_where
find_where_refused prisma floor_percent now key tags none wallet tab hide_deleted d h = (_, refl)
find_where_refused prisma floor_percent now key tags (some r) wallet tab hide_deleted d (inl h) =
    absurd (cc)
find_where_refused prisma floor_percent now key tags (some r) wallet tab hide_deleted d (inr h) =
    ("PROFILE_TAB_FILTERS[(tab || \"DEFAULT\")] is not a function", rw h refl)
