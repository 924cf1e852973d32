-- ===== src/Json/Tests.antt =====
-- Values and texts that the BMC sends.
use op_test.Prelude.{◌≡◌, refl, none, some, true, false}
use op_test.Json.{numbered, named, truthy, str, null}

entry_number : numbered "/entry/" "/entry/42" ≡ some "42"
entry_number = refl

no_number : numbered "/entry/" "/entry/" ≡ none
no_number = refl

not_a_number : numbered "/entry/" "/entry/4/attr" ≡ none
not_a_number = refl

with_newline : numbered "/entry/" "/entry/4\n" ≡ some "4"
with_newline = refl

image_name : named "/software/" "/software/061c4bdb" ≡ some "061c4bdb"
image_name = refl

texts : (truthy (str "") ≡ false) × (truthy (str "x") ≡ true) × (truthy null ≡ false)
texts = (refl, refl, refl)
