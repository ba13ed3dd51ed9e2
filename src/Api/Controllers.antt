-- ===== src/Api/Controllers.antt =====
-- controllers/ideas.ts: the responses around the operations on ideas. The headers go out with the first
-- response to a request, and a response after that throws. The content of a response is left out.
pub mod Ownership
use lilnouns_monorepo.Base.{
  ℕ, str_eq, Bool, true, false, not, Option, none, some, String, List, if◌then◌else◌,
}
use lilnouns_monorepo.Base.Int.{ℤ}
use lilnouns_monorepo.Api.Types.{User, Idea, Comment}
use lilnouns_monorepo.Api.Prisma.{Prisma, Outcome, resolved, rejected, M}
use lilnouns_monorepo.Api.Votes.{FloorPercent}
use lilnouns_monorepo.Api.Ideas.{
  all, get, create_idea, vote_on_idea, get_votes_by_idea, get_idea_comments, comment_on_idea,
  delete_idea, delete_comment,
}

pub record Response : Type 0 where
  pub status : ℕ
  pub message : String

pub record Exchange (Db : Type 0) : Type 0 where
  pub db : Db
  pub sent : Option Response

-- A step ends normally, or throws an error with a message.
abbrev pub Step : Type 0 → Type 0
Step Db = Exchange Db → Exchange Db × Option String

abbrev pub reply : ℕ → String → Response
reply status message = record { status = status; message = message }

-- `user?.wallet`
wallet_of : Option User → Option String
wallet_of none = none
wallet_of (some u) = some u.wallet

-- `!address`
unfoldable pub is_absent : Option String → Bool
is_absent none = true
is_absent (some s) = str_eq s ""

-- `owner !== address`
differs : Option String → Option String → Bool
differs none none = false
differs none (some a) = true
differs (some o) none = true
differs (some o) (some a) = not (str_eq o a)

creator_of : Option Idea → Option String
creator_of none = none
creator_of (some idea) = some idea.creator_id

author_of : Option Comment → Option String
author_of none = none
author_of (some comment) = some comment.author_id

module _ {Db : Type 0} where
  infixl 5 ◌>>◌
  abbrev pub ◌>>◌ : Step Db → Step Db → Step Db
  ◌>>◌ m k s = elim (m s).1 [ none ↦ k (m s).0 | some e ↦ ((m s).0, some e) ]

  abbrev pub send : Response → Step Db
  send r s = elim s.sent [
    | none ↦ (record s { sent = some r }, none)
    | some first ↦ (s, some "Cannot set headers after they are sent to the client")
  ]

  -- An `if` that sends a response and goes on.
  abbrev pub send_if : Bool → Response → Step Db
  send_if c r s = if c then send r s else (s, none)

  abbrev pub call : {A : Type 0} → M Db A → Step Db
  call m s = elim (m s.db).0 [
    | resolved a ↦ (record s { db = (m s.db).1 }, none)
    | rejected e ↦ (record s { db = (m s.db).1 }, some e)
  ]

  -- `catch (e)`: what the handler of the error throws is lost.
  abbrev pub handled : Step Db → Exchange Db → Exchange Db
  handled m s = elim (m s).1 [ none ↦ (m s).0 | some e ↦ (send (reply 500 e) (m s).0).0 ]

module _ {Db : Type 0} (prisma : Prisma Db) where
  unfoldable pub on_get_all_ideas : ℕ → String → Exchange Db → Exchange Db
  on_get_all_ideas now sort = handled (call (all prisma now sort) >> send (reply 200 "All ideas"))

  -- `label` is the text `Idea ${id}`.
  unfoldable pub on_get_idea_by_id : FloorPercent → ℕ → String → ℕ → Exchange Db → Exchange Db
  on_get_idea_by_id floor_percent now label id =
      handled (call (get prisma floor_percent now id) >> send (reply 200 label))

  unfoldable pub on_create_idea :
      String → String → String → List String → Option User → Option ℕ → Exchange Db → Exchange Db
  on_create_idea title tldr description tags user supply = handled (
      call (create_idea prisma title tldr description tags user supply)
      >> send (reply 200 "Idea created"))

  unfoldable pub on_vote_on_idea : ℕ → ℕ → Option ℤ → Option User → Exchange Db → Exchange Db
  on_vote_on_idea now idea_id parsed user =
      handled
        (call (vote_on_idea prisma now idea_id parsed user) >> send (reply 200 "Voted on idea"))

  unfoldable pub on_get_comments_by_idea : ℕ → Exchange Db → Exchange Db
  on_get_comments_by_idea id =
      handled (call (get_idea_comments prisma id) >> send (reply 200 "Fetched comments"))

  unfoldable pub on_comment_on_idea :
      ℕ → ℕ → String → Option ℕ → Option User → Exchange Db → Exchange Db
  on_comment_on_idea now idea_id body parent_id user = handled (
      call (comment_on_idea prisma now idea_id body parent_id user)
      >> send (reply 200 "Commented on idea"))

  unfoldable pub on_get_votes_by_idea : ℕ → Exchange Db → Exchange Db
  on_get_votes_by_idea id =
      handled (call (get_votes_by_idea prisma id) >> send (reply 200 "Voted on idea"))

  -- The checks send a response and do not return.
  unfoldable pub on_delete_comment : Option User → ℕ → Exchange Db → Exchange Db
  unfolding wallet_of is_absent differs author_of
  on_delete_comment user id s =
      let address = wallet_of user in
      handled
        (send_if (is_absent address) (reply 500 "You must be logged in to delete a comment.")
          >> send_if (differs (author_of (prisma.find_comment id s.db)) address)
              (reply 500 "You must be the owner of the comment to delete it.")
          >> call (delete_comment prisma id)
          >> send (reply 200 "Comment deleted"))
        s

  unfoldable pub on_delete_idea : Option User → ℕ → Exchange Db → Exchange Db
  unfolding wallet_of is_absent differs creator_of
  on_delete_idea user id s =
      let address = wallet_of user in
      handled
        (send_if (is_absent address) (reply 500 "You must be logged in to delete an idea.")
          >> send_if (differs (creator_of (prisma.find_idea id s.db)) address)
              (reply 500 "You must be the owner of the idea to delete it.")
          >> call (delete_idea prisma id)
          >> send (reply 200 "Idea deleted"))
        s
