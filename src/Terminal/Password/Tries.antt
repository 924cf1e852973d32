-- ===== src/Terminal/Password/Tries.antt =====
-- How often a password is tried.
use op_test.Prelude.{◌≡◌, refl, Option, none, String, List, []}
use op_test.Exceptions.{ℤ}
use op_test.Terminal.State.{Terminal, Act, Console}
use op_test.Terminal.Password.{retry_rounds, retry_password}

module _ {W Pty : Type 0} (c : Console W Pty) where
  -- `retry_password` sends the password twice at most: its loop, which allows three rounds, is that of
  -- two, and what follows the loop is never reached.
  pub retry_password_twice :
      (fall : List String → Option ℤ → Act W (List String × ℤ)) (pty : Pty) (command : String)
      (s : Terminal W)
      → retry_password c pty command s ≡ retry_rounds c fall pty command 2 0 [] none s
  unfolding retry_password retry_rounds
  retry_password_twice fall pty command s = refl
