-- ===== src/Api/Ideas/Voting.antt =====
-- Votes and comments on an idea, and ideas that are deleted.
use lilnouns_monorepo.Base.{
  ℕ, zero, suc, ◌≢◌, ◌||◌, ◌==◌, ◌≡◌, refl, ◌⊎◌, inl, inr, str_eq, true, false, ◌&&◌, Option, none,
  some, String, if◌then◌else◌, arith, ◌∙◌,
}
use lilnouns_monorepo.Base.Int.{ℤ, pos, negsuc}
use lilnouns_monorepo.Api.Types.{User, Idea}
use lilnouns_monorepo.Api.Prisma.{Prisma, IsLawful, direction_of, as_deleted, resolved, rejected}
use lilnouns_monorepo.Api.Tags.{get_is_closed}
use lilnouns_monorepo.Api.Votes.{FloorPercent}
use lilnouns_monorepo.Api.Ideas.{
  clamp_direction, valid_direction, is_idea_closed, is_idea_deleted, vote_on_idea, comment_on_idea,
  delete_idea, get, RatedIdea,
}

eq_self : (n : ℕ) → (n == n) ≡ true
eq_self n = ground arith

valid_direction_lem :
    (parsed : Option ℤ) (n : ℤ) → valid_direction parsed ≡ some n → (n ≡ pos 1) ⊎ (n ≡ negsuc 0)
unfolding valid_direction clamp_direction
valid_direction_lem none n h = cc
valid_direction_lem (some (pos zero)) n h = cc
valid_direction_lem (some (pos (suc zero))) n h = inl (cc)
valid_direction_lem (some (pos (suc (suc p)))) n h = inl (ground arith)
valid_direction_lem (some (negsuc zero)) n h = inr (cc)
valid_direction_lem (some (negsuc (suc p))) n h = inr (ground arith)

module _ {Db : Type 0} (prisma : Prisma Db) (now idea_id : ℕ) where
  -- An idea that takes votes and comments.
  abbrev pub IsOpen : Db → Type 0
  IsOpen d =
      (idea : Idea) × (prisma.find_idea idea_id d ≡ some idea)
      × (get_is_closed now idea ≡ false)
      × (idea.deleted ≡ false)

  IsOpen-of_checks :
      (d : Db) (o : Option Idea)
      → prisma.find_idea idea_id d ≡ o
      → elim o [ none ↦ true | some idea ↦ get_is_closed now idea || idea.deleted ] ≡ false
      → IsOpen d
  IsOpen-of_checks d none e h = cc
  IsOpen-of_checks d (some idea) e h = (idea, e, ground arith, ground arith)

  vote_on_idea_lem :
      (u : User) (parsed : Option ℤ) (n : ℤ) (d : Db)
      → (vote_on_idea prisma now idea_id parsed (some u) d).0 ≡ resolved n
      → (valid_direction parsed ≡ some n)
        × (prisma.upsert_vote idea_id u.wallet n d
            ≡ some (vote_on_idea prisma now idea_id parsed (some u) d).1)
  unfolding vote_on_idea is_idea_closed is_idea_deleted
  vote_on_idea_lem u parsed n d h = ground arith

  vote_on_idea-IsOpen :
      (u : User) (parsed : Option ℤ) (n : ℤ) (d : Db)
      → (vote_on_idea prisma now idea_id parsed (some u) d).0 ≡ resolved n
      → IsOpen d
  unfolding vote_on_idea is_idea_closed is_idea_deleted
  vote_on_idea-IsOpen u parsed n d h =
      IsOpen-of_checks d (prisma.find_idea idea_id d) refl (ground arith)

  comment_on_idea-IsOpen :
      (u : User) (body : String) (parent : Option ℕ) (d : Db)
      → (comment_on_idea prisma now idea_id body parent (some u) d).0 ≡ resolved tt
      → IsOpen d
  unfolding comment_on_idea is_idea_closed is_idea_deleted
  comment_on_idea-IsOpen u body parent d h =
      IsOpen-of_checks d (prisma.find_idea idea_id d) refl (ground arith)

  -- A user's vote that is taken is for or against; it is on an idea that is there and neither closed
  -- nor deleted; and it is then that user's vote on that idea, with all other votes as they were.
  pub vote_on_idea-votes :
      IsLawful prisma
      → (u : User) (parsed : Option ℤ) (n : ℤ) (d : Db)
      → (vote_on_idea prisma now idea_id parsed (some u) d).0 ≡ resolved n
      → ((n ≡ pos 1) ⊎ (n ≡ negsuc 0))
        × IsOpen d
        × ((j : ℕ) (voter : String)
            → direction_of voter
                (prisma.find_votes j (vote_on_idea prisma now idea_id parsed (some u) d).1)
              ≡ (if (idea_id == j) && str_eq u.wallet voter
                  then some n
                  else direction_of voter (prisma.find_votes j d)))
  vote_on_idea-votes law u parsed n d h =
      let done = vote_on_idea_lem u parsed n d h in
      (
        valid_direction_lem parsed n done.0,
        vote_on_idea-IsOpen u parsed n d h,
        λ j voter. law.find-upsert_vote idea_id j u.wallet voter n d _ done.1,
      )

  -- A direction that is for or against, on such an idea, is taken wherever the database resolves.
  vote_on_idea_taken :
      (u : User) (parsed : Option ℤ) (n : ℤ) (d d' : Db)
      → IsOpen d
      → valid_direction parsed ≡ some n
      → prisma.upsert_vote idea_id u.wallet n d ≡ some d'
      → vote_on_idea prisma now idea_id parsed (some u) d ≡ (resolved n, d')
  unfolding vote_on_idea is_idea_closed is_idea_deleted
  vote_on_idea_taken u parsed n d d' open_idea valid written =
      ground (arith, valid, written, open_idea.1, open_idea.2, open_idea.3)

  -- A vote that is refused, for whichever reason, changes nothing.
  vote_on_idea_refused :
      (user : Option User) (parsed : Option ℤ) (e : String) (d : Db)
      → (vote_on_idea prisma now idea_id parsed user d).0 ≡ rejected e
      → (vote_on_idea prisma now idea_id parsed user d).1 ≡ d
  unfolding vote_on_idea is_idea_closed is_idea_deleted
  vote_on_idea_refused user parsed e d h = ground arith

  deleted_not-IsOpen :
      (d : Db) (o : Option Idea) → prisma.find_idea idea_id d ≡ as_deleted o → ¬ IsOpen d
  deleted_not-IsOpen d none e h = cc (e, h.1)
  deleted_not-IsOpen d (some idea) e h = ground (arith, e, h.1, h.3)

  get_deleted :
      (floor_percent : FloorPercent) (rated : RatedIdea) (d : Db) (o : Option Idea)
      → prisma.find_idea idea_id d ≡ as_deleted o
      → (get prisma floor_percent now idea_id d).0 ≢ resolved rated
  unfolding get
  get_deleted floor_percent rated d none e = rw e (λ h. cc)
  get_deleted floor_percent rated d (some idea) e = rw e (λ h. cc)

  find-delete_idea :
      IsLawful prisma
      → (d : Db) → (delete_idea prisma idea_id d).0 ≡ resolved tt
      → prisma.find_idea idea_id (delete_idea prisma idea_id d).1
        ≡ as_deleted (prisma.find_idea idea_id d)
  unfolding delete_idea
  find-delete_idea law d h =
      let written : prisma.delete_idea idea_id d ≡ some (delete_idea prisma idea_id d).1 =
        ground arith in
      law.find-delete_idea idea_id idea_id d _ written ∙ (rw (eq_self idea_id))

  -- After an idea was deleted, no vote and no comment on it is taken, and a request for it alone is refused.
  pub delete_idea-ends :
      IsLawful prisma
      → (u : User) (parsed : Option ℤ) (n : ℤ) (body : String) (parent : Option ℕ)
        (floor_percent : FloorPercent) (rated : RatedIdea) (d : Db)
      → (delete_idea prisma idea_id d).0 ≡ resolved tt
      → let d' = (delete_idea prisma idea_id d).1 in
        ((vote_on_idea prisma now idea_id parsed (some u) d').0 ≢ resolved n)
        × ((comment_on_idea prisma now idea_id body parent (some u) d').0 ≢ resolved tt)
        × ((get prisma floor_percent now idea_id d').0 ≢ resolved rated)
  delete_idea-ends law u parsed n body parent floor_percent rated d h =
      let d' = (delete_idea prisma idea_id d).1 in
      let found = find-delete_idea law d h in
      (
        λ v. deleted_not-IsOpen d' _ found (vote_on_idea-IsOpen u parsed n d' v),
        λ c. deleted_not-IsOpen d' _ found (comment_on_idea-IsOpen u body parent d' c),
        get_deleted floor_percent rated d' _ found,
      )
