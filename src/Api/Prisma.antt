-- ===== src/Api/Prisma.antt =====
-- The database client, which is not part of the repository: the calls that the services make, each with
-- `none` where it rejects, and a monad for what they do with it.
use lilnouns_monorepo.Base.{
  ℕ, ◌==◌, ◌&&◌, ◌≡◌, str_eq, Bool, true, false, Option, none, some, String, List, [], ◌∷◌,
  if◌then◌else◌,
}
use lilnouns_monorepo.Base.Int.{ℤ}
use lilnouns_monorepo.Api.Types.{User, Vote, Idea, NewIdea, Comment, Where}

pub record Prisma (Db : Type 0) : Type 0 where
  pub find_user : String → Db → Option User
  pub users : Db → List User
  pub create_user : User → Db → Option Db
  pub update_user : User → Db → Option Db
  pub find_idea : ℕ → Db → Option Idea
  pub find_ideas : Where → Db → List Idea
  pub undeleted_ideas : Db → List Idea
  pub create_idea : NewIdea → Db → Option (Idea × Db)
  pub delete_idea : ℕ → Db → Option Db
  pub find_votes : ℕ → Db → List Vote
  pub upsert_vote : ℕ → String → ℤ → Db → Option Db
  pub find_comments : ℕ → Db → List Comment
  pub comments_by : String → Bool → Db → List Comment
  pub find_comment : ℕ → Db → Option Comment
  pub create_comment : String → String → ℕ → Option ℕ → Db → Option Db
  pub delete_comment : ℕ → Db → Option Db

-- The direction of a voter's first vote in a list.
abbrev pub direction_of : String → List Vote → Option ℤ
direction_of wallet [] = none
direction_of wallet (v ∷ vs) =
    if str_eq v.voter.wallet wallet then some v.direction else direction_of wallet vs

abbrev pub as_deleted : Option Idea → Option Idea
as_deleted none = none
as_deleted (some idea) = some (record idea { deleted = true })

-- What is documented of the calls: an update of what is there resolves, and what it writes is read.
pub record IsLawful {Db : Type 0} (prisma : Prisma Db) : Type 0 where
  pub find-update_user :
      (u : User) (d d' : Db) (wallet : String)
      → prisma.update_user u d ≡ some d'
      → prisma.find_user wallet d'
        ≡ (if str_eq u.wallet wallet then some u else prisma.find_user wallet d)
  pub update_user_found :
      (u old : User) (d : Db)
      → prisma.find_user u.wallet d ≡ some old
      → (d' : Db) × (prisma.update_user u d ≡ some d')
  pub find-delete_idea :
      (i j : ℕ) (d d' : Db)
      → prisma.delete_idea i d ≡ some d'
      → prisma.find_idea j d'
        ≡ (if i == j then as_deleted (prisma.find_idea j d) else prisma.find_idea j d)
  pub find-upsert_vote :
      (i j : ℕ) (wallet voter : String) (direction : ℤ) (d d' : Db)
      → prisma.upsert_vote i wallet direction d ≡ some d'
      → direction_of voter (prisma.find_votes j d') ≡ (
          if (i == j) && str_eq wallet voter
          then some direction
          else direction_of voter (prisma.find_votes j d))

pub data Outcome (A : Type 0) : Type 0 where
  resolved : A → Outcome A
  rejected : String → Outcome A

-- A rejected call leaves what was written before it.
abbrev pub M : Type 0 → Type 0 → Type 0
M Db A = Db → Outcome A × Db

module _ {Db : Type 0} where
  infixl 5 ◌>>=◌ ◌>>◌
  abbrev pub ◌>>=◌ : {A B : Type 0} → M Db A → (A → M Db B) → M Db B
  ◌>>=◌ m f d = elim (m d).0 [ resolved a ↦ f a (m d).1 | rejected e ↦ (rejected e, (m d).1) ]

  abbrev pub ◌>>◌ : {B : Type 0} → M Db (Unit {0}) → M Db B → M Db B
  m >> k = m >>= λ u. k

  abbrev pub return : {A : Type 0} → A → M Db A
  return a d = (resolved a, d)

  -- `if (c) throw new Error(e)`
  abbrev pub throw_if : Bool → String → M Db (Unit {0})
  throw_if true e d = (rejected e, d)
  throw_if false e d = (resolved tt, d)

  abbrev pub reads : {A : Type 0} → (Db → A) → M Db A
  reads f d = (resolved (f d), d)

  -- A value that must be there.
  abbrev pub require : {A : Type 0} → Option A → String → M Db A
  require none e d = (rejected e, d)
  require (some a) e d = (resolved a, d)

  -- A call of the client, with its own error.
  abbrev pub writes : (Db → Option Db) → M Db (Unit {0})
  writes f d = elim (f d) [ none ↦ (rejected "prisma", d) | some d' ↦ (resolved tt, d') ]
