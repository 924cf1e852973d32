-- ===== src/Json.antt =====
-- JSON values as `json` gives them to the code of common/OpTestUtil.py and common/OpTestOpenBMC.py, with
-- the methods that these call on them. A number is an integer. A call that the value has not raises.
pub mod Kept
mod Tests
use Prim.Native.Char.{Char, code}
use op_test.Prelude.{
  ℕ, Bool, true, false, not, ◌&&◌, ◌||◌, Option, none, some, String, List, [], ◌∷◌, leb, ◌==◌,
  str_eq, if◌then◌else◌,
}
use op_test.Exec.{Exec, pure, raise}
use op_test.Exceptions.{OpException, ℤ, pos, negsuc, type_error, key_error, other}
use op_test.Lines.{contains}

mutual
  pub data Json : Type 0 where
    null : Json
    flag : Bool → Json
    num : ℤ → Json
    str : String → Json
    arr : Items → Json
    obj : Fields → Json

  pub data Items : Type 0 where
    no_items : Items
    item : Json → Items → Items

  -- The names of a dict are distinct; `json` keeps the last of equal ones.
  pub data Fields : Type 0 where
    no_fields : Fields
    field : String → Json → Fields → Fields

-- d.get(name), None where the name is missing
abbrev pub lookup : String → Fields → Option Json
lookup name no_fields = none
lookup name (field n v rest) = if str_eq n name then some v else lookup name rest

abbrev pub or_null : Option Json → Json
or_null none = null
or_null (some v) = v

-- The names in the order of the dict, which `for k in d` runs through
abbrev pub names : Fields → List String
names no_fields = []
names (field n v rest) = n ∷ names rest

abbrev with_text : Json → Option (List String) → Option (List String)
with_text (str s) (some texts) = some (s ∷ texts)
with_text v texts = none

abbrev texts_of : Items → Option (List String)
texts_of no_items = some []
texts_of (item v rest) = with_text v (texts_of rest)

module _ {S : Type 0} where
  -- v.get(name)
  abbrev pub get_field : String → Json → Exec S OpException Json
  get_field name (obj fields) = pure (or_null (lookup name fields))
  get_field name v = raise (other "AttributeError")

  abbrev pub or_key_error : Option Json → Exec S OpException Json
  or_key_error none = raise key_error
  or_key_error (some v) = pure v

  -- v[name]
  abbrev pub at_name : String → Json → Exec S OpException Json
  at_name name (obj fields) = or_key_error (lookup name fields)
  at_name name v = raise type_error

  abbrev or_type_error : Option (List String) → Exec S OpException (List String)
  or_type_error none = raise type_error
  or_type_error (some texts) = pure texts

  -- for k in v, where the body is a `re.match` of k with a pattern of more than one character: the
  -- names of a dict, the texts of a list, and of a text, whose characters do not match, nothing. What
  -- is no text raises before the first round here, and in its own round in the code.
  abbrev pub keys : Json → Exec S OpException (List String)
  keys (obj fields) = pure (names fields)
  keys (arr items) = or_type_error (texts_of items)
  keys (str s) = pure []
  keys v = raise type_error

-- v == text
abbrev pub is_text : String → Json → Bool
is_text s (str t) = str_eq t s
is_text s v = false

abbrev counts_one : ℤ → Bool
counts_one (pos n) = n == 1
counts_one (negsuc n) = false

-- v == 1
abbrev pub equals_one : Json → Bool
equals_one (num n) = counts_one n
equals_one (flag b) = b
equals_one v = false

-- v is None
abbrev pub is_null : Json → Bool
is_null null = true
is_null v = false

abbrev counts_zero : ℤ → Bool
counts_zero (pos n) = n == 0
counts_zero (negsuc n) = false

abbrev no_items? : Items → Bool
no_items? no_items = true
no_items? (item v rest) = false

abbrev no_fields? : Fields → Bool
no_fields? no_fields = true
no_fields? (field n v rest) = false

-- bool(v)
abbrev pub truthy : Json → Bool
truthy null = false
truthy (flag b) = b
truthy (num n) = not (counts_zero n)
truthy (str s) = not (str_eq s "")
truthy (arr items) = not (no_items? items)
truthy (obj fields) = not (no_fields? fields)

abbrev has_text : String → Items → Bool
has_text s no_items = false
has_text s (item v rest) = is_text s v || has_text s rest

abbrev has_name : String → Fields → Bool
has_name s no_fields = false
has_name s (field n v rest) = str_eq n s || has_name s rest

-- text in v
abbrev pub is_in : {S : Type 0} → String → Json → Exec S OpException Bool
is_in s (str t) = pure (contains s t)
is_in s (arr items) = pure (has_text s items)
is_in s (obj fields) = pure (has_name s fields)
is_in s v = raise type_error

-- The rest of a text after a prefix
abbrev pub after : String → String → Option String
after String.[] s = some s
after (String.◌∷◌ c p) String.[] = none
after (String.◌∷◌ c p) (String.◌∷◌ d s) = if code c == code d then after p s else none

abbrev is_digit : Char → Bool
is_digit c = leb 48 (code c) && leb (code c) 57

abbrev cons_some : Char → Option String → Option String
cons_some c none = none
cons_some c (some s) = some (String.◌∷◌ c s)

-- A text of digits alone, which a newline may end, without that newline
abbrev all_digits : String → Option String
all_digits String.[] = some String.[]
all_digits (String.◌∷◌ c String.[]) =
    if is_digit c
    then some (String.◌∷◌ c String.[])
    else if code c == 10
    then some String.[]
    else none
all_digits (String.◌∷◌ c (String.◌∷◌ d s)) =
    let rest = all_digits (String.◌∷◌ d s) in if is_digit c then cons_some c rest else none

abbrev unless_empty : Option String → Option String
unless_empty none = none
unless_empty (some String.[]) = none
unless_empty (some s) = some s

abbrev numbered_rest : Option String → Option String
numbered_rest none = none
numbered_rest (some s) = unless_empty (all_digits s)

-- The group of re.match(prefix + r'(\d{1,})$', text), whose digits are those of ASCII here
abbrev pub numbered : String → String → Option String
numbered prefix s = numbered_rest (after prefix s)

-- The text up to the end of its line
abbrev line_of : String → String
line_of String.[] = String.[]
line_of (String.◌∷◌ c s) =
    let rest = line_of s in if code c == 10 then String.[] else String.◌∷◌ c rest

abbrev line_rest : Option String → Option String
line_rest none = none
line_rest (some s) = some (line_of s)

-- The group of re.match(prefix + r'(.*)', text)
abbrev pub named : String → String → Option String
named prefix s = line_rest (after prefix s)
