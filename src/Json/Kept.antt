-- ===== src/Json/Kept.antt =====
-- The methods of JSON values change nothing: they keep every invariant.
use op_test.Prelude.{Option, none, some, String, List}
use op_test.Exec.Keeps.{Keeps, Keeps-pure, Keeps-raise}
use op_test.Exceptions.{OpException}
use op_test.Json.{
  Json, null, flag, num, str, arr, obj, lookup, texts_of, get_field, at_name, or_key_error,
  or_type_error, keys, is_in,
}

module _ {S : Type 0} (Inv : S → Type 0) where
  pub get_field-Keeps : (name : String) (v : Json) → Keeps {E = OpException} Inv (get_field name v)
  get_field-Keeps name (obj dict) = Keeps-pure _
  get_field-Keeps name null = Keeps-raise _
  get_field-Keeps name (flag b) = Keeps-raise _
  get_field-Keeps name (num n) = Keeps-raise _
  get_field-Keeps name (str s) = Keeps-raise _
  get_field-Keeps name (arr xs) = Keeps-raise _

  or_key_error-Keeps : (found : Option Json) → Keeps {E = OpException} Inv (or_key_error found)
  or_key_error-Keeps none = Keeps-raise _
  or_key_error-Keeps (some v) = Keeps-pure _

  pub at_name-Keeps : (name : String) (v : Json) → Keeps {E = OpException} Inv (at_name name v)
  at_name-Keeps name (obj dict) = or_key_error-Keeps (lookup name dict)
  at_name-Keeps name null = Keeps-raise _
  at_name-Keeps name (flag b) = Keeps-raise _
  at_name-Keeps name (num n) = Keeps-raise _
  at_name-Keeps name (str s) = Keeps-raise _
  at_name-Keeps name (arr xs) = Keeps-raise _

  or_type_error-Keeps :
      (found : Option (List String)) → Keeps {E = OpException} Inv (or_type_error found)
  or_type_error-Keeps none = Keeps-raise _
  or_type_error-Keeps (some texts) = Keeps-pure _

  pub keys-Keeps : (v : Json) → Keeps {E = OpException} Inv (keys v)
  keys-Keeps (obj dict) = Keeps-pure _
  keys-Keeps (arr xs) = or_type_error-Keeps (texts_of xs)
  keys-Keeps (str s) = Keeps-pure _
  keys-Keeps null = Keeps-raise _
  keys-Keeps (flag b) = Keeps-raise _
  keys-Keeps (num n) = Keeps-raise _

  pub is_in-Keeps : (text : String) (v : Json) → Keeps {E = OpException} Inv (is_in text v)
  is_in-Keeps text (str s) = Keeps-pure _
  is_in-Keeps text (arr xs) = Keeps-pure _
  is_in-Keeps text (obj dict) = Keeps-pure _
  is_in-Keeps text null = Keeps-raise _
  is_in-Keeps text (flag b) = Keeps-raise _
  is_in-Keeps text (num n) = Keeps-raise _

pub ruleset json_rules = (get_field-Keeps, at_name-Keeps, keys-Keeps, is_in-Keeps)
