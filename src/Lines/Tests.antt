-- ===== src/Lines/Tests.antt =====
-- The text functions on small texts.
use op_test.Prelude.{◌≡◌, refl, true, none, some, [], ◌∷◌, arith}
use op_test.Exceptions.{pos, negsuc}
use op_test.Lines.Serial.{
  lf, crlf, crcrlf, screen_of, IsLine, AreLines, AreDigits, buffer_lines-screen_of, echo_code-value,
}
use op_test.Lines.{int, echo_code, buffer_lines, ends_in_background}

mended : buffer_lines "uname\r\r\nLinux\r\n" ≡ "uname" ∷ "Linux" ∷ []
unfolding buffer_lines
mended = refl

three_codes :
    (int " 12 " ≡ some (pos 12)) × (int "-3" ≡ some (negsuc 2)) × (int "1_0" ≡ some (pos 10))
unfolding int
three_codes = (refl, refl, refl)

no_codes : (int "_1" ≡ none) × (int "" ≡ none) × (int "x" ≡ none)
unfolding int
no_codes = (refl, refl, refl)

echoed_127 : echo_code "echo $?\r\r\n127\r\r\n" ≡ pos 127
unfolding echo_code
echoed_127 = refl

background : ends_in_background "sleep 5 & " ≡ true
unfolding ends_in_background
background = refl

is_line : AreLines (("uname -r", crcrlf) ∷ ("", lf) ∷ ("6.1", crlf) ∷ [])
is_line = search depth 40

is_command : IsLine "echo $?"
is_command = search depth 40

is_number : AreDigits "127"
is_number = ground arith

buffer_lines-screen_of_example :
    buffer_lines (screen_of (("uname -r", crcrlf) ∷ ("", lf) ∷ ("6.1", crlf) ∷ []))
    ≡ "uname -r" ∷ "" ∷ "6.1" ∷ []
buffer_lines-screen_of_example =
    buffer_lines-screen_of (("uname -r", crcrlf) ∷ ("", lf) ∷ ("6.1", crlf) ∷ []) is_line

echo_code-value_example :
    echo_code (screen_of (("echo $?", crcrlf) ∷ ("127", crcrlf) ∷ [])) ≡ pos 127
echo_code-value_example = echo_code-value "echo $?" "1" "27" crcrlf crcrlf is_command is_number
