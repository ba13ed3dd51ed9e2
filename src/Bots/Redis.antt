-- ===== src/Bots/Redis.antt =====
-- What the bots use of Redis and of the texts of JavaScript values, which are not part of the
-- repository.
use lilnouns_monorepo.Base.{
  ℕ, ◌≡◌, ◌≢◌, str_eq, Bool, true, false, Option, none, some, String, if◌then◌else◌,
}
use Prim.Native.String.{◌++◌}
use lilnouns_monorepo.Bots.Types.{GovernanceProposal}

abbrev pub is_some : Option String → Bool
is_some none = false
is_some (some v) = true

pub record Redis (Db : Type 0) : Type 0 where
  pub get : String → Db → Option String
  pub set : String → String → Db → Db
  pub exists : String → Db → Bool
  pub number_text : ℕ → String  -- a number in a template or as an argument of `set`
  pub number : String → ℕ  -- Number
  pub stringify : GovernanceProposal → String  -- JSON.stringify
  pub parse : String → GovernanceProposal  -- JSON.parse

-- What is documented of them: a key has the text that was set last, and the text of a number is
-- not empty, is read back, and has only digits, so that it does not begin as the rest of a warning's
-- key does.
pub record IsLawful {Db : Type 0} (r : Redis Db) : Type 0 where
  pub get_set :
      (j k v : String) (d : Db) → r.get j (r.set k v d) ≡ (if str_eq k j then some v else r.get j d)
  pub exists_get : (k : String) (d : Db) → r.exists k d ≡ is_some (r.get k d)
  pub number_read : (n : ℕ) → r.number (r.number_text n) ≡ n
  pub number_truthy : (n : ℕ) → str_eq (r.number_text n) "" ≡ false
  pub number_digits : (n : ℕ) (s : String) → r.number_text n ≢ "EXPIRY_WARNING_SENT_" ++ s

-- A proposal's text is not empty, and is read back.
abbrev pub IsReadBack : {Db : Type 0} → Redis Db → GovernanceProposal → Type 0
IsReadBack r p = (r.parse (r.stringify p) ≡ p) × (str_eq (r.stringify p) "" ≡ false)
