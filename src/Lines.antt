-- ===== src/Lines.antt =====
-- The string methods that common/OpTestUtil.py reads the buffers of a console with: `replace` of the
-- ends of line that a serial console doubles, `splitlines`, `in`, `lstrip`, and `int`, whose blanks and
-- digits are those of ASCII here.
pub mod Serial
mod Tests
use Prim.Native.Char.{Char, code}
use Prim.Native.String.{String, ◌++◌ as append}
use text.Mathlib.Text.{find?, starts_with}
use op_test.Prelude.{
  ℕ, zero, suc, ◌+◌, ◌-◌, ◌*◌, Bool, true, false, not, ◌&&◌, ◌||◌, Option, none, some, List, [],
  ◌∷◌, ltb, leb, ◌==◌, if◌then◌else◌, str_eq,
}
use op_test.Exceptions.{ℤ, pos, negsuc}

-- The first character has this code.
abbrev begins : ℕ → String → Bool
begins n String.[] = false
begins n (String.◌∷◌ c s) = code c == n

abbrev begins_crlf : String → Bool
begins_crlf String.[] = false
begins_crlf (String.◌∷◌ c s) = (code c == 13) && begins 10 s

abbrev drop_first : String → String
drop_first String.[] = String.[]
drop_first (String.◌∷◌ c s) = s

-- s.replace("\r\r\n", "\n"): a match is left in the rest as "\r\n", of which "\n" is kept.
pub mend : String → String
mend String.[] = String.[]
mend (String.◌∷◌ c s) =
    let rest = mend s in
    if (code c == 13) && begins_crlf s then drop_first rest else String.◌∷◌ c rest

-- "\r\n" is one end of line.
join_crlf : String → String
join_crlf String.[] = String.[]
join_crlf (String.◌∷◌ c s) =
    let rest = join_crlf s in if (code c == 13) && begins 10 s then rest else String.◌∷◌ c rest

-- The ends of line of `splitlines`
abbrev is_break : ℕ → Bool
is_break n =
    (leb 10 n && leb n 13) || (leb 28 n && leb n 30) || (n == 133) || (leb 8232 n && leb n 8233)

abbrev add_first : Char → List String → List String
add_first c [] = String.◌∷◌ c String.[] ∷ []
add_first c (l ∷ ls) = String.◌∷◌ c l ∷ ls

lines : String → List String
lines String.[] = []
lines (String.◌∷◌ c s) =
    let rest = lines s in if is_break (code c) then String.[] ∷ rest else add_first c rest

pub splitlines : String → List String
unfolding lines join_crlf
splitlines s = lines (join_crlf s)

-- s.replace("\r\r\n", "\n").splitlines()
unfoldable pub buffer_lines : String → List String
unfolding mend splitlines
buffer_lines s = splitlines (mend s)

abbrev found : Option ℕ → Bool
found none = false
found (some i) = true

-- `part in s`
abbrev pub contains : String → String → Bool
contains part s = found (find? s part)

-- any(part in x for x in xs)
abbrev pub any_contains : String → List String → Bool
any_contains part [] = false
any_contains part (x ∷ xs) = contains part x || any_contains part xs

-- One of the parts is in one of the lines.
abbrev pub some_contained : List String → List String → Bool
some_contained [] xs = false
some_contained (p ∷ ps) xs = any_contains p xs || some_contained ps xs

-- `x in xs`, of texts
abbrev pub is_listed : String → List String → Bool
is_listed x [] = false
is_listed x (y ∷ ys) = str_eq x y || is_listed x ys

module _ {ℓ} {A : Type ℓ} where
  abbrev pub last : List A → Option A
  last [] = none
  last (x ∷ []) = some x
  last (x ∷ y ∷ xs) = last (y ∷ xs)

  -- `del xs[:1]`
  abbrev pub rest_of : List A → List A
  rest_of [] = []
  rest_of (x ∷ xs) = xs

  -- `del xs[-1]`, none where that raises IndexError
  abbrev pub without_last : List A → Option (List A)
  without_last [] = none
  without_last (x ∷ []) = some []
  without_last (x ∷ y ∷ xs) = elim (without_last (y ∷ xs)) [ none ↦ none | some zs ↦ some (x ∷ zs) ]

-- ''.join(xs)
abbrev pub joined : List String → String
joined [] = ""
joined (x ∷ xs) = append x (joined xs)

abbrev is_space : ℕ → Bool
is_space n = (leb 9 n && leb n 13) || (leb 28 n && leb n 32)

-- s.lstrip()
pub lstrip : String → String
lstrip String.[] = String.[]
lstrip (String.◌∷◌ c s) = let rest = lstrip s in if is_space (code c) then rest else String.◌∷◌ c s

abbrev is_blank : String → Bool
is_blank String.[] = true
is_blank (String.◌∷◌ c s) = is_space (code c) && is_blank s

-- The digits after those that make `n`; the flag says that the last character was a digit.
digits : String → ℕ → Bool → Option ℕ
digits String.[] n true = some n
digits String.[] n false = none
digits (String.◌∷◌ c s) n after =
    let digit = leb 48 (code c) && leb (code c) 57 in
    let rest = digits s (if digit then 10 * n + (code c - 48) else n) digit in
    if digit || (after && (code c == 95))
    then rest
    else if after && is_space (code c) && is_blank s
    then some n
    else none

abbrev negative : Option ℕ → Option ℤ
negative none = none
negative (some zero) = some (pos 0)
negative (some (suc n)) = some (negsuc n)

abbrev positive : Option ℕ → Option ℤ
positive none = none
positive (some n) = some (pos n)

signed : String → Option ℤ
unfolding digits
signed String.[] = none
signed (String.◌∷◌ c s) =
    if code c == 45
    then negative (digits s 0 false)
    else if code c == 43
    then positive (digits s 0 false)
    else positive (digits (String.◌∷◌ c s) 0 false)

-- int(s), none where that raises ValueError
pub int : String → Option ℤ
unfolding signed lstrip
int s = signed (lstrip s)

-- The lines of the output of `echo $?` that are not empty and do not begin with an escape sequence
pub plain_lines : List String → List String
plain_lines [] = []
plain_lines (String.[] ∷ xs) = plain_lines xs
plain_lines (String.◌∷◌ c s ∷ xs) =
    let rest = plain_lines xs in
    if (code c == 27) && begins 91 s then rest else String.◌∷◌ c s ∷ rest

abbrev pub or_unknown : Option ℤ → ℤ
or_unknown none = negsuc 0
or_unknown (some n) = n

abbrev last_int : Option String → ℤ
last_int none = negsuc 0
last_int (some l) = or_unknown (int l)

-- What the output of `echo $?` says, with the line of the command first; -1 where it says nothing
unfoldable pub echo_code : String → ℤ
unfolding buffer_lines plain_lines int
echo_code buffer = last_int (last (plain_lines (rest_of (buffer_lines buffer))))

last_solid : ℕ → String → ℕ
last_solid n String.[] = n
last_solid n (String.◌∷◌ c s) = last_solid (if is_space (code c) then n else code c) s

-- s.strip().endswith("&")
unfoldable pub ends_in_background : String → Bool
unfolding last_solid
ends_in_background s = last_solid 0 s == 38

-- '\n'.join(xs)
abbrev pub joined_lines : List String → String
joined_lines [] = ""
joined_lines (x ∷ []) = x
joined_lines (x ∷ y ∷ xs) = append x (append "\n" (joined_lines (y ∷ xs)))
