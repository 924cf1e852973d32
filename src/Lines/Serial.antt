-- ===== src/Lines/Serial.antt =====
-- What a console shows, line by line, and what the string methods read from it.
use Prim.Native.Char.{Char, code}
use Prim.Native.String.{String}
use op_test.Prelude.{
  ℕ, ◌+◌, ◌-◌, ◌*◌, ◌≤◌, ◌<◌, ◌≡◌, refl, ap, ◌∙◌, true, false, ◌&&◌, some, List, [], ◌∷◌, leb, ◌==◌,
  arith, Bool-cases, inl, inr,
}
use op_test.Exceptions.{pos}
use op_test.Lines.{
  is_break, mend, join_crlf, lines, splitlines, buffer_lines, add_first, digits, lstrip, signed,
  int, plain_lines, echo_code, is_space, positive, last_int, last, rest_of, or_unknown,
}

-- How a line ends: "\n", "\r\n", or the "\r\r\n" of a serial console
pub data Ending : Type 0 where
  lf crlf crcrlf : Ending

abbrev pub newline : Char
newline = "\n"

abbrev pub carriage_return : Char
carriage_return = "\r"

abbrev pub ended : Ending → String → String
ended lf s = String.◌∷◌ newline s
ended crlf s = String.◌∷◌ carriage_return (String.◌∷◌ newline s)
ended crcrlf s = String.◌∷◌ carriage_return (String.◌∷◌ carriage_return (String.◌∷◌ newline s))

-- A line before the text
abbrev pub put_before : String → String → String
put_before String.[] t = t
put_before (String.◌∷◌ c s) t = String.◌∷◌ c (put_before s t)

abbrev pub screen_of : List (String × Ending) → String
screen_of [] = String.[]
screen_of ((line, end) ∷ ls) = put_before line (ended end (screen_of ls))

-- No end of line stands in it.
abbrev pub IsLine : String → Type 0
IsLine String.[] = Unit
IsLine (String.◌∷◌ c s) = (is_break (code c) ≡ false) × IsLine s

abbrev pub AreLines : List (String × Ending) → Type 0
AreLines [] = Unit
AreLines ((line, end) ∷ ls) = IsLine line × AreLines ls

abbrev pub texts : List (String × Ending) → List String
texts [] = []
texts ((line, end) ∷ ls) = line ∷ texts ls

not_cr : (c : Char) → is_break (code c) ≡ false → (code c == 13) ≡ false
not_cr c h = elim (Bool-cases (code c == 13)) [ inl e ↦ absurd (ground (arith, h, e)) | inr e ↦ e ]

mend-put_before :
    (line t : String) → IsLine line → mend (put_before line t) ≡ put_before line (mend t)
unfolding mend
mend-put_before String.[] t h = refl
mend-put_before (String.◌∷◌ c s) t (h, hs) =
    simp (not_cr c h) (ap (λ r. String.◌∷◌ c r) (mend-put_before s t hs))

-- The end that `mend` leaves
abbrev mended : Ending → Ending
mended crcrlf = lf
mended end = end

mend-ended : (end : Ending) (t : String) → mend (ended end t) ≡ ended (mended end) (mend t)
unfolding mend
mend-ended lf t = refl
mend-ended crlf t = refl
mend-ended crcrlf t = refl

join-put_before :
    (line t : String) → IsLine line → join_crlf (put_before line t) ≡ put_before line (join_crlf t)
unfolding join_crlf
join-put_before String.[] t h = refl
join-put_before (String.◌∷◌ c s) t (h, hs) =
    simp (not_cr c h) (ap (λ r. String.◌∷◌ c r) (join-put_before s t hs))

join-ended :
    (end : Ending) (t : String)
    → join_crlf (ended (mended end) t) ≡ String.◌∷◌ newline (join_crlf t)
unfolding join_crlf
join-ended lf t = refl
join-ended crlf t = refl
join-ended crcrlf t = refl

lines-put_before :
    (line t : String)
    → IsLine line
    → lines (put_before line (String.◌∷◌ newline t)) ≡ line ∷ lines t
unfolding lines
lines-put_before String.[] t h = refl
lines-put_before (String.◌∷◌ c s) t (h, hs) = simp h (ap (add_first c) (lines-put_before s t hs))

-- Lines without an end of line in them, which a console shows with any of the ends LF, CRLF and CRCRLF
-- after each, are what `buffer_lines` reads from it.
pub buffer_lines-screen_of :
    (ls : List (String × Ending)) → AreLines ls → buffer_lines (screen_of ls) ≡ texts ls
unfolding buffer_lines splitlines mend join_crlf lines
buffer_lines-screen_of [] h = refl
buffer_lines-screen_of ((line, end) ∷ ls) (h, hs) =
    ap (λ s. lines (join_crlf s))
      (mend-put_before line (ended end (screen_of ls)) h
        ∙ ap (put_before line) (mend-ended end (screen_of ls)))
    ∙ ap lines (
        join-put_before line (ended (mended end) (mend (screen_of ls))) h
        ∙ ap (put_before line) (join-ended end (mend (screen_of ls))))
    ∙ lines-put_before line (join_crlf (mend (screen_of ls))) h
    ∙ ap (λ xs. line ∷ xs) (buffer_lines-screen_of ls hs)

-- A text of decimal digits, and its value after those that make `n`
abbrev pub AreDigits : String → Type 0
AreDigits String.[] = Unit
AreDigits (String.◌∷◌ c s) = (48 ≤ code c) × (code c ≤ 57) × AreDigits s

abbrev pub value : ℕ → String → ℕ
value n String.[] = n
value n (String.◌∷◌ c s) = value (10 * n + (code c - 48)) s

is_digit : (c : Char) → 48 ≤ code c → code c ≤ 57 → (leb 48 (code c) && leb (code c) 57) ≡ true
is_digit c h k = ground (arith, h, k)

digits-value : (s : String) (n : ℕ) → AreDigits s → digits s n true ≡ some (value n s)
unfolding digits
digits-value String.[] n h = refl
digits-value (String.◌∷◌ c s) n (h, k, hs) =
    simp (is_digit c h k) (digits-value s (10 * n + (code c - 48)) hs)

no_space : (c : Char) → 48 ≤ code c → code c ≤ 57 → is_space (code c) ≡ false
no_space c h k = ground (arith, h, k)

no_sign : (n : ℕ) (c : Char) → 48 ≤ code c → n < 48 → (code c == n) ≡ false
no_sign n c h k = ground (arith, h, k)

no_break : (c : Char) → 48 ≤ code c → code c ≤ 57 → is_break (code c) ≡ false
no_break c h k = ground (arith, h, k)

digits-IsLine : (s : String) → AreDigits s → IsLine s
digits-IsLine String.[] h = tt
digits-IsLine (String.◌∷◌ c s) (h, k, hs) = (no_break c h k, digits-IsLine s hs)

int-value :
    (c : Char) (s : String)
    → AreDigits (String.◌∷◌ c s)
    → int (String.◌∷◌ c s) ≡ some (pos (value 0 (String.◌∷◌ c s)))
unfolding int signed lstrip digits
int-value c s (h, k, hs) =
    simp
      (no_space c h k, no_sign 45 c h (omega arith), no_sign 43 c h (omega arith), is_digit c h k)
      (ap positive (digits-value s (0 + (code c - 48)) hs))

-- The number is one line of the answer.
plain-number :
    (c : Char) (s : String) → 48 ≤ code c → plain_lines (String.◌∷◌ c s ∷ []) ≡ String.◌∷◌ c s ∷ []
unfolding plain_lines
plain-number c s h = simp (no_sign 27 c h (omega arith)) refl

-- Where a console shows a line with the command and a line with a decimal number, each with any end of
-- line, `echo_code` is that number.
pub echo_code-value :
    (command : String) (c : Char) (s : String) (first second : Ending)
    → IsLine command
    → AreDigits (String.◌∷◌ c s)
    → echo_code (screen_of ((command, first) ∷ (String.◌∷◌ c s, second) ∷ []))
      ≡ pos (value 0 (String.◌∷◌ c s))
unfolding echo_code
echo_code-value command c s first second h d =
    ap (λ ls. last_int (last (plain_lines (rest_of ls))))
      (buffer_lines-screen_of ((command, first) ∷ (String.◌∷◌ c s, second) ∷ [])
        (h, (digits-IsLine (String.◌∷◌ c s) d, tt)))
    ∙ ap (λ ls. last_int (last ls)) (plain-number c s d.0)
    ∙ ap or_unknown (int-value c s d)
