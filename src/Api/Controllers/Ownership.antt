-- ===== src/Api/Controllers/Ownership.antt =====
-- Who may delete an idea.
use lilnouns_monorepo.Base.{ℕ, ◌≡◌, str_eq, false, none, some, if◌then◌else◌, arith}
use lilnouns_monorepo.Api.Types.{User, Idea}
use lilnouns_monorepo.Api.Prisma.{Prisma}
use lilnouns_monorepo.Api.Ideas.{delete_idea}
use lilnouns_monorepo.Api.Controllers.{reply, on_delete_idea}

module _ {Db : Type 0} (prisma : Prisma Db) where
  -- A request of a logged-in user to delete an idea deletes it, whether the user is its creator or not:
  -- the check of the creator only decides the response, which says for others that they must be the
  -- owner.
  pub on_delete_idea_unowned :
      (u : User) (id : ℕ) (idea : Idea) (d d' : Db)
      → str_eq u.wallet "" ≡ false
      → prisma.find_idea id d ≡ some idea
      → prisma.delete_idea id d ≡ some d'
      → on_delete_idea prisma (some u) id (record { db = d; sent = none }) ≡ (record {
        db = d';
        sent = some (
            if str_eq idea.creator_id u.wallet
            then reply 200 "Idea deleted"
            else reply 500 "You must be the owner of the idea to delete it.");
      })
  unfolding on_delete_idea delete_idea
  on_delete_idea_unowned u id idea d d' logged_in found deleted = ground arith
