-- ===== src/Web/Transactions.antt =====
-- wrappers/nounsDao.ts and wrappers/bigNounsDao.ts, `formatProposalTransactionDetails`: how the calls of a
-- proposal are shown. Texts are lists of character codes; the decoding of arguments, the text of an amount
-- and the hash of a signature are calls of libraries, and parameters.
pub mod Signatures
use mathlib.Core.Option
use lilnouns_monorepo.Base.{
  ℕ, ◌==◌, ltb, not, Bool, true, false, ◌&&◌, ◌||◌, Option, none, some, List, [], ◌∷◌, ◌++◌, drop,
  take, if◌then◌else◌,
}
use lilnouns_monorepo.Base.Chars.{Chars, codes, text_eq, push}

pub record Details : Type 0 where
  pub target : Chars
  pub function_sig : Option Chars
  pub call_data : Chars
  pub value : Option Chars

-- `signature.substring(0, signature.length - 1)`
init : Chars → Chars
init [] = []
init (c ∷ []) = []
init (c ∷ d ∷ s) = c ∷ init (d ∷ s)

add_name : ℕ → Chars × Option Chars → Chars × Option Chars
add_name c (name, types) = (c ∷ name, types)

-- What stands before the first `(`, and after it, if there is one.
cut : Chars → Chars × Option Chars
unfolding add_name
cut [] = ([], none)
cut (c ∷ s) = let rest = cut s in if c == b'(' then ([], some s) else add_name c rest

-- `name` and `types`
unfoldable pub read_signature : Chars → Chars × Option Chars
unfolding init cut
read_signature signature = cut (init signature)

-- `[^(]*\)` matches at the start.
closes : Chars → Bool
closes [] = false
closes (c ∷ s) =
    let rest = closes s in if c == b')' then true else if c == b'(' then false else rest

-- `types.split(/,(?![^(]*\))/g)`
unfoldable pub split_types : Chars → List Chars
unfolding closes push
split_types [] = [] ∷ []
split_types (c ∷ s) =
    let rest = split_types s in if (c == b',') && not (closes s) then [] ∷ rest else push c rest

is_empty_text : Chars → Bool
is_empty_text [] = true
is_empty_text (c ∷ s) = false

module _ (format_ether : ℕ → Chars) (decode : List Chars → Chars → Option Chars) where
  -- The amount that is shown beside a decoded call.
  amount_text : ℕ → Chars
  amount_text value =
      if ltb 0 value then codes "{ value: " ++ (format_ether value ++ codes " ETH }") else []

  -- A call without a name or types; the amount, which is an object, is never falsy.
  plain_details : Chars → Chars → Option Chars → ℕ → Details
  unfolding is_empty_text
  plain_details target name types value = record {
    target = target;
    function_sig = some (if is_empty_text name then codes "transfer" else name);
    call_data = elim types [
      | none ↦ format_ether value ++ codes " ETH"
      | some t ↦ if is_empty_text t then format_ether value ++ codes " ETH" else t
    ];
    value = none;
  }

  decoded_details : Chars → Chars → ℕ → Option Chars → Option Details
  unfolding amount_text
  decoded_details target name value none = none
  decoded_details target name value (some decoded) = some (record {
    target = target;
    function_sig = some name;
    call_data = decoded;
    value = some (amount_text value);
  })

  details_of : Chars → ℕ → Chars → Chars × Option Chars → Option Details
  unfolding plain_details decoded_details is_empty_text
  details_of target value calldata (name, none) = some (plain_details target name none value)
  details_of target value calldata (name, some types) =
      if is_empty_text name || is_empty_text types
      then some (plain_details target name (some types) value)
      else decoded_details target name value (decode (split_types types) calldata)

  -- One call of a proposal of this DAO; none where the decoding throws.
  unfoldable pub format_transaction : Chars → Chars → ℕ → Chars → Option Details
  unfolding details_of
  format_transaction target signature value calldata =
      details_of target value calldata (read_signature signature)

  -- `selector` is the first four bytes of the hash of a signature, with the prefix.
  module _ (selector : Chars → Chars) where
    concat_selector : Chars → Chars → Chars
    unfolding is_empty_text
    concat_selector signature calldata =
        if is_empty_text signature then calldata else selector signature ++ drop 2 calldata

    -- The texts of an amount, where nothing is decoded, end with a space.
    raw_details : Chars → Chars → ℕ → Chars → Details
    unfolding concat_selector
    raw_details target signature value calldata = record {
      target = target;
      function_sig = none;
      call_data = concat_selector signature calldata;
      value = some (
          if ltb 0 value then codes "{ value: " ++ (format_ether value ++ codes " ETH } ") else []);
    }

    unsigned_details : Chars → Chars → ℕ → Chars → Chars → Option Chars → Details
    unfolding raw_details plain_details is_empty_text
    unsigned_details target signature value calldata name types =
        if not (is_empty_text calldata) && not (text_eq calldata (codes "0x"))
        then raw_details target signature value calldata
        else plain_details target name types value

    decoded_or_raw : Chars → Chars → ℕ → Chars → Option Details → Details
    unfolding raw_details
    decoded_or_raw target signature value calldata none =
        raw_details target signature value calldata
    decoded_or_raw target signature value calldata (some d) = d

    big_details_of : Chars → Chars → ℕ → Chars → Chars × Option Chars → Details
    unfolding unsigned_details decoded_or_raw decoded_details is_empty_text
    big_details_of target signature value calldata (name, none) =
        unsigned_details target signature value calldata name none
    big_details_of target signature value calldata (name, some types) =
        if is_empty_text name || is_empty_text types
        then unsigned_details target signature value calldata name (some types)
        else decoded_or_raw target signature value calldata
            (decoded_details target name value (decode (split_types types) calldata))

    -- One call of a proposal of the other DAO.
    unfoldable pub format_big_noun_transaction : Chars → Chars → ℕ → Chars → Details
    unfolding big_details_of
    format_big_noun_transaction target signature value calldata =
        big_details_of target signature value calldata (read_signature signature)
