-- ===== src/Subgraph/Tests.antt =====
-- A host, and a store with a noun on auction, a proposal, two holders and their delegates.
mod Auctions
mod Governor
mod Tokens
use Prim.Native.Nat.{ℕ, zero, suc, ◌/◌, ◌%◌, ◌<◌, ◌^◌}
use Prim.Native.String.{String, ◌++◌}
use lilnouns_monorepo.Base.{
  ◌≡◌, refl, ◌==◌, Option, none, some, List, [], ◌∷◌, if◌then◌else◌, ◌&&◌, get_elem?, arith, false,
}
use lilnouns_monorepo.Base.Int.{ℤ, pos, negsuc, sub_ℕ, leb_ℤ, ltb_ℤ}
use lilnouns_monorepo.Base.Table.{Table, load, save, IsKeyed, save-IsKeyed}
use lilnouns_monorepo.Subgraph.Host.{Bytes, GraphTs, IsLawful}
use lilnouns_monorepo.Subgraph.Entities.{Account, Delegate, Noun, Auction, Proposal}
use lilnouns_monorepo.Subgraph.Events.{Context}
use lilnouns_monorepo.Subgraph.Store.{Store, empty}
use lilnouns_monorepo.Subgraph.Helpers.{new_account, new_delegate, new_governance}
use lilnouns_monorepo.Subgraph.Helpers.Found.{found}

-- A number is printed with as many strokes.
strokes : ℕ → String
strokes zero = ""
strokes (suc n) = "|" ++ strokes n

print : ℤ → String
unfolding strokes
print (pos n) = strokes n
print (negsuc n) = "-" ++ strokes (suc n)

abbrev digits : List String
digits =
    "0" ∷ "1" ∷ "2" ∷ "3" ∷ "4" ∷ "5" ∷ "6" ∷ "7" ∷ "8" ∷ "9" ∷ "a" ∷ "b" ∷ "c" ∷ "d" ∷ "e" ∷ "f"
    ∷ []

digit : ℕ → String
digit n = found (get_elem? digits n) ""

hex : Bytes → String
unfolding digit
hex [] = ""
hex (b ∷ bs) = (digit (b / 16) ++ digit (b % 16)) ++ hex bs

-- Truncated division.
quotient : ℤ → ℤ → Option ℤ
quotient (pos a) (pos b) = if b == 0 then none else some (pos (a / b))
quotient (negsuc a) (pos b) = if b == 0 then none else some (sub_ℕ 0 (suc a / b))
quotient (pos a) (negsuc b) = some (sub_ℕ 0 (a / suc b))
quotient (negsuc a) (negsuc b) = some (pos (suc a / suc b))

in_i32 : ℤ → Option ℤ
in_i32 a = if leb_ℤ (sub_ℕ 0 (2 ^ 31)) a && ltb_ℤ a (pos (2 ^ 31)) then some a else none

unfoldable pub host : GraphTs
unfolding print hex quotient in_i32
host = record { to_string = print; to_hex = λ b. "0x" ++ hex b; div = quotient; to_i32 = in_i32 }

quotient_zero : (a : ℤ) → quotient a (pos 0) ≡ none
unfolding quotient
quotient_zero (pos a) = refl
quotient_zero (negsuc a) = refl

pub host-IsLawful : IsLawful host
unfolding host quotient in_i32
host-IsLawful = record {
  div_nonneg = λ a b h. ground arith;
  div_zero = quotient_zero;
  to_i32_fits = λ a h. ground arith;
}

abbrev pub at : Context
at = record { number = pos 100; timestamp = pos 1000; hash = 171 ∷ []; index = pos 0 }

abbrev pub alice : Bytes
alice = 10 ∷ []

abbrev pub bob : Bytes
bob = 11 ∷ []

-- Alice holds the first noun and stands for herself.
abbrev pub alice_account : Account
alice_account = record (new_account "0x0a") {
  delegate = some "0x0a";
  token_balance_raw = pos 1;
  token_balance = pos 1;
  total_tokens_held_raw = pos 1;
  total_tokens_held = pos 1;
  nouns = "|" ∷ [];
}

abbrev pub alice_delegate : Delegate
alice_delegate = record (new_delegate "0x0a") {
  delegated_votes_raw = pos 1;
  delegated_votes = pos 1;
  token_holders_represented_amount = pos 1;
  nouns_represented = "|" ∷ [];
}

abbrev pub first_noun : Noun
first_noun = record { id = "|"; seed = none; owner = some "0x0a" }

abbrev pub auction : Auction
auction = record {
  id = "|";
  noun = "|";
  amount = pos 0;
  start_time = pos 1;
  end_time = pos 2;
  bidder = none;
  settled = false;
}

abbrev pub accounts : Table Account
accounts = save "0x0a" alice_account []

abbrev pub delegates : Table Delegate
delegates = save "0x0a" alice_delegate []

abbrev pub store : Store
store = record empty {
  accounts = accounts;
  delegates = delegates;
  nouns = save "|" first_noun [];
  auctions = save "|" auction [];
  governance = some (record new_governance {
    total_token_holders = pos 1;
    current_token_holders = pos 1;
    current_delegates = pos 1;
    total_delegates = pos 1;
    delegated_votes_raw = pos 1;
    delegated_votes = pos 1;
  });
}

-- A table of one entity under its id.
pub one-IsKeyed {ℓ} :
    {V : Type ℓ} (id_of : V → String) (v : V) → IsKeyed id_of (save (id_of v) v [])
unfolding load
one-IsKeyed id_of v = save-IsKeyed id_of (id_of v) v [] refl (λ k w h. absurd (cc h))
