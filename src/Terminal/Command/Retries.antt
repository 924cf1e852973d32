-- ===== src/Terminal/Command/Retries.antt =====
-- The retries of `run_command`.
use op_test.Prelude.{
  ℕ, zero, suc, ◌+◌, ◌≡◌, refl, true, false, Option, some, String, List, leb, ◌==◌, arith,
}
use op_test.Exec.{Result, ok, err, pure, raise, catching, handled, continue, ◌>>=◌, ◌>>◌}
use op_test.Exceptions.{OpException, command_failed}
use op_test.Terminal.State.{Terminal, Act, Console, pause}
use op_test.Terminal.Command.{try_command, failed_round, command_rounds, run_command}

plus_one : (n : ℕ) → n + 1 ≡ suc n
plus_one n = omega arith

module _ {W Pty : Type 0} (c : Console W Pty) where
  -- Of a command that fails, another attempt after two seconds; no other exception is caught.
  abbrev pub on_failure : Act W (List String) → OpException → Act W (List String)
  on_failure m (command_failed command out code) = do pause c 2000; m
  on_failure m e = raise e

  -- The first success of an attempt and so many more, or the failure of the last
  pub attempts : ℕ → Act W (List String) → Act W (List String)
  attempts zero m = m
  attempts (suc n) m = catching m (on_failure (attempts n m))

  abbrev wrapped : Act W (List String) → Act W (Option (List String))
  wrapped m = m >>= (λ out. pure (some out))

  last_round :
      (retry counter : ℕ)
      → (counter == retry) ≡ true
      → (rest : Act W (Option (List String))) (r : Result OpException (List String))
        (s : Terminal W)
      → handled
          (continue r (λ out. pure (some out)) s).0
          (failed_round c retry counter rest)
          (continue r (λ out. pure (some out)) s).1
        ≡ continue r (λ out. pure (some out)) s
  unfolding failed_round ◌>>=◌
  last_round retry counter e rest (ok out) s = refl
  last_round retry counter e rest (err (OpException.command_failed x y z)) s = rw e refl
  last_round retry counter e rest (err d) s = refl

  next_round :
      (retry counter : ℕ)
      → (counter == retry) ≡ false
      → (rest : Act W (Option (List String))) (m : Act W (List String))
      → ((s : Terminal W) → rest s ≡ wrapped m s)
      → (r : Result OpException (List String)) (s : Terminal W)
      → handled
          (continue r (λ out. pure (some out)) s).0
          (failed_round c retry counter rest)
          (continue r (λ out. pure (some out)) s).1
        ≡ continue
            (handled r (on_failure m) s).0
            (λ out. pure (some out))
            (handled r (on_failure m) s).1
  unfolding failed_round ◌>>=◌
  next_round retry counter e rest m h (ok out) s = refl
  next_round retry counter e rest m h (err (OpException.command_failed x y z)) s =
      rw e (h (c.sleep 2000 s))
  next_round retry counter e rest m h (err d) s = refl

  here : (retry counter k : ℕ) → counter + k ≡ retry → leb counter retry ≡ true
  here retry counter k h = ground arith

  at_last : (retry counter : ℕ) → counter + 0 ≡ retry → (counter == retry) ≡ true
  at_last retry counter h = ground arith

  not_last : (retry counter k : ℕ) → counter + suc k ≡ retry → (counter == retry) ≡ false
  not_last retry counter k h = ground arith

  command_rounds-attempts :
      (command : String) (limit retry k counter : ℕ)
      → counter + k ≡ retry
      → (s : Terminal W)
      → command_rounds c (suc k) command limit retry counter s
        ≡ wrapped (attempts k (try_command c command limit)) s
  unfolding command_rounds attempts ◌>>=◌
  command_rounds-attempts command limit retry zero counter h s = rw (here retry counter zero h) (
      last_round retry counter (at_last retry counter h)
        (command_rounds c zero command limit retry (counter + 1)) (try_command c command limit s).0
        (try_command c command limit s).1)
  command_rounds-attempts command limit retry (suc k) counter h s =
      rw (here retry counter (suc k) h) (
        next_round retry counter (not_last retry counter k h)
          (command_rounds c (suc k) command limit retry (counter + 1))
          (attempts k (try_command c command limit))
          (command_rounds-attempts command limit retry k (counter + 1) (omega arith))
          (try_command c command limit s).0 (try_command c command limit s).1)

  -- `run_command` is the first success of retry + 1 attempts, or the CommandFailed of the last: its
  -- loop always returns by `return` or raises.
  pub run_command-attempts :
      (command : String) (limit retry : ℕ) (s : Terminal W)
      → run_command c command limit retry s
        ≡ (attempts retry (try_command c command limit) >>= (λ out. pure (some out))) s
  unfolding run_command
  run_command-attempts command limit retry s =
      rw (plus_one retry) (command_rounds-attempts command limit retry retry 0 (omega arith) s)
