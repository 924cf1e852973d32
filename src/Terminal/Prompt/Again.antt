-- ===== src/Terminal/Prompt/Again.antt =====
-- The recovery of a prompt, twice.
use op_test.Exceptions.{OpException, ℤ, pos, type_error}
use op_test.Prelude.{ℕ, ◌==◌, if◌then◌else◌, ◌≡◌, refl, true, none, some, Option, String, List}
use Prim.Native.String.{◌++◌ as append}
use op_test.Exec.{Exec, Result, ok, err, pure, modify, ◌>>=◌, ◌>>◌}
use op_test.Exec.Keeps.{Keeps, keeps_rules, Keeps-pure}
use op_test.Exec.Post.{Post, Returns, Returns-weaken, Post-bind, Post-then}
use op_test.Exec.Raises.{any-Keeps}
use op_test.System.Interface.{Pattern}
use op_test.Terminal.State.{Terminal, Act, Console, await, send_wait}
use op_test.Terminal.Prompt.{
  ask_versions, unless_known, get_versions, unsettled, second_setting, prompt_shown, block_setup,
  set_again,
}

abbrev Lost : {W : Type 0} → Terminal W → Type 0
Lost s = s.setters_lost ≡ true

-- No method of the console gives the setters back.
pub record LeavesSetters {W Pty : Type 0} (c : Console W Pty) : Type 0 where
  pub sendline_leaves : (pty : Pty) (what : String) → Keeps Lost (c.sendline pty what)
  pub expect_leaves :
      (pty : Pty) (ps : List Pattern) (limit : Option _) → Keeps Lost (c.expect pty ps limit)
  pub before_leaves : (pty : Pty) → Keeps Lost (c.before pty)
  pub sleep_leaves : (ms : _) (s : Terminal W) → Lost s → Lost (c.sleep ms s)

returned {ℓ} :
    {S E A : Type ℓ} (Q : S → Type ℓ) (r : Result E A) (s : S) → Q s → Returns (λ _. Q) r s
returned Q (ok a) s q = q
returned Q (err e) s q = tt

Keeps-Post {ℓ} : {S E A : Type ℓ} {P : S → Type ℓ} (m : Exec S E A) → Keeps P m → Post P (λ _. P) m
Keeps-Post {P = P} m k = record { at = λ s p. returned P (m s).0 (m s).1 (k.at s p) }

module _ {W Pty : Type 0} (c : Console W Pty) (leaves : LeavesSetters c) where
  send_wait-Keeps : (pty : Pty) (what : String) (ms : ℕ) → Keeps Lost (send_wait c pty what ms)
  unfolding send_wait
  send_wait-Keeps pty what ms = search (keeps_rules, leaves.sendline_leaves, leaves.sleep_leaves)

  await-Keeps : (pty : Pty) (what : String) (n : ℕ) → Keeps Lost (await c pty what n)
  unfolding await
  await-Keeps pty what n = leaves.expect_leaves _ _ _

  unless_known-Keeps :
      (pty : Pty) (prompt : String) (o : Option (List String))
      → Keeps Lost (unless_known c pty prompt o)
  unfolding ask_versions
  unless_known-Keeps pty prompt (some v) = Keeps-pure tt
  unless_known-Keeps pty prompt none =
      search
        (keeps_rules, send_wait-Keeps, await-Keeps, leaves.sendline_leaves, leaves.before_leaves)
        depth 14

  get_versions-Keeps : (pty : Pty) (prompt : String) → Keeps Lost (get_versions c pty prompt)
  unfolding get_versions
  get_versions-Keeps pty prompt = search (keeps_rules, unless_known-Keeps)

  unsettled-Keeps : Keeps Lost (unsettled c)
  unfolding unsettled
  unsettled-Keeps = search keeps_rules

  -- What `set_again` does once the methods are overwritten
  abbrev rest : Pty → String → Act W ℤ
  rest pty prompt = do
    second_setting c pty prompt
    rc ← prompt_shown c pty prompt
    if rc == 0 then (do get_versions c pty (append prompt "$"); pure (pos 1)) else unsettled c

  rest-Keeps : (pty : Pty) (prompt : String) → Keeps Lost (rest pty prompt)
  unfolding second_setting prompt_shown
  rest-Keeps pty prompt =
      search (keeps_rules, send_wait-Keeps, await-Keeps, get_versions-Keeps, unsettled-Keeps) depth
        14

  modify-Lost :
      Post {E = OpException}
        (λ _. Unit)
        (λ _. Lost {W = W})
        (modify (λ s. record s { setters_lost = true }))
  unfolding ◌>>=◌
  modify-Lost = record { at = λ s p. refl }

  set_again-Lost : (prompt : String) → Post (λ _. Unit) (λ _. Lost) (set_again c prompt)
  unfolding set_again
  set_again-Lost prompt = Post-bind _ _ (any-Keeps _) (λ _. Post-bind _ _ (any-Keeps _) (λ _.
      Post-bind _ _ (any-Keeps _) (λ pty.
        Post-then {R = λ _. Lost} _ _ modify-Lost (λ _. Keeps-Post _ (rest-Keeps pty prompt)))))

  set_again_overwritten :
      (prompt : String) (s : Terminal W) → Lost s → set_again c prompt s ≡ (err type_error, s)
  unfolding set_again block_setup ◌>>=◌
  set_again_overwritten prompt s p = simp p refl

  -- Where the methods of the console do not give back the setters that are overwritten: if the recovery
  -- of a prompt returns, the next one, for any prompt, raises TypeError and does nothing else.
  pub set_again-set_again :
      (prompt next_prompt : String) (s : Terminal W)
      → Returns
          (λ rc again. set_again c next_prompt again ≡ (err type_error, again))
          (set_again c prompt s).0
          (set_again c prompt s).1
  set_again-set_again prompt next_prompt s =
      Returns-weaken _ _ (λ rc again lost. set_again_overwritten next_prompt again lost) _ _
        ((set_again-Lost prompt).at s tt)
