-- ===== src/System/WaitForIt/Hits.antt =====
-- What `wait_for_it` returns: the index of a string of the table that has no callback.
use op_test.Prelude.{
  ℕ, zero, suc, ◌+◌, ◌-◌, ◌<◌, ◌≡◌, refl, Bool, true, false, Option, none, some, String, List,
  arith, length, get_elem?, inl, inr, Bool-cases, ltb, leb, ◌&&◌, leb→lt, tests,
}
use op_test.Exec.{pure, ◌>>=◌}
use op_test.Exec.Post.{Post, Post-bind, Post-then, Post-pure, Post-if, Returns, post_rules}
use op_test.Exceptions.{OpException}
use op_test.System.State.{OpTestSystem, Act}
use op_test.System.Interface.{Platform}
use op_test.System.Callbacks.{Callback, Table}
use op_test.System.Callbacks.Raises.{Any, Any-Keeps, run_callback-Post}
use op_test.System.WaitForIt.{
  WaitArgs, WaitVars, sorted_keys, find, run_handler, handle_key, check_it, stale_over, stale_check,
  wait_round, or_raise, give_up, wait_next, wait_loop, first_vars, wait_for_it,
}

-- The key at the index stands in the table, with None for its callback.
abbrev pub IsPlain : Table → List String → ℕ → Type 0
IsPlain d keys i = (key : String) × (get_elem? keys i ≡ some key) × (find key d ≡ some none)

abbrev Found : {W : Type 0} → Table → List String → Option ℕ → OpTestSystem W → Type 0
Found d keys none s = Unit
Found d keys (some i) s = IsPlain d keys i

-- A hit, and never the None of a loop that ran out.
abbrev pub IsHit : {W : Type 0} → Table → List String → Option (ℕ × ℕ) → OpTestSystem W → Type 0
IsHit d keys none s = ⊥
IsHit d keys (some (i, n)) s = IsPlain d keys i

module _ {W : Type 0} (p : Platform W) (a : WaitArgs) (keys : List String) where
  abbrev d : Table
  d = a.expect_dict

  run_handler-Post :
      (key : String) (i : ℕ)
      → get_elem? keys i ≡ some key
      → (c : Option (Option Callback)) → find key d ≡ c
      → Post Any (Found d keys) (run_handler p c i)
  unfolding run_handler
  run_handler-Post key i e none f = search post_rules
  run_handler-Post key i e (some none) f = Post-pure _ (λ s h. (key, e, f))
  run_handler-Post key i e (some (some c)) f =
      Post-then _ _ (run_callback-Post p (λ _ _. ⊥) c) (λ _. record { at = λ s h. absurd h })

  handle_key-Post :
      (i : ℕ) (key : Option String)
      → get_elem? keys i ≡ key
      → Post Any (Found d keys) (handle_key p d key i)
  unfolding handle_key
  handle_key-Post i none e = search post_rules
  handle_key-Post i (some key) e = run_handler-Post key i e (find key d) refl

  miss-Post : Post {E = OpException} (Any {W = W}) (Found d keys) (pure none)
  miss-Post = Post-pure none (λ s h. tt)

  check_it-Post : (r : ℕ) → Post Any (Found d keys) (check_it p d keys r)
  unfolding check_it
  check_it-Post r =
      Post-if (leb 2 r && ltb r (length keys + 2)) _ _ (handle_key-Post (r - 2) _ refl)
        (Post-bind _ _ (Any-Keeps _) (λ _. miss-Post))

  -- A fact of the data, as a precondition.
  fact-Post :
      {A F : Type 0} {Q : A → OpTestSystem W → Type 0} (m : Act W A)
      → (F → Post Any Q m)
      → Post (λ _. F) Q m
  fact-Post m h = record { at = λ s f. (h f).at s tt }

  stale_over-Post :
      (v : WaitVars) (b : Option Bool) → Post Any (λ v' _. v'.x ≡ v.x) (stale_over p a v b)
  unfolding stale_over
  stale_over-Post v none = search post_rules
  stale_over-Post v (some false) = Post-pure v (λ s h. refl)
  stale_over-Post v (some true) = Post-bind _ _ (Any-Keeps _) (λ _. Post-pure _ (λ s h. refl))

  stale_check-Post :
      (v : WaitVars) (r : ℕ) (before : String)
      → Post Any (λ v' _. v'.x ≡ v.x) (stale_check p a v r before)
  unfolding stale_check
  stale_check-Post v r before = Post-if _ _ _ (stale_over-Post _ _) (Post-pure _ (λ s h. refl))

  abbrev RoundDone : WaitVars → Option ℕ × WaitVars → OpTestSystem W → Type 0
  RoundDone v (o, v') s = Found d keys o s × (v'.x ≡ v.x)

  checked-Post :
      (v v' : WaitVars) (r : ℕ)
      → v'.x ≡ v.x
      → Post Any (RoundDone v) (check_it p d keys r >>= λ w. pure (w, v'))
  checked-Post v v' r e = Post-then _ _ (check_it-Post r) (λ w. Post-pure _ (λ s f. (f, e)))

  wait_round-Post : (v : WaitVars) → Post Any (RoundDone v) (wait_round p a keys v)
  unfolding wait_round
  wait_round-Post v =
      (Post-bind _ _ (Any-Keeps _) (λ _. Post-bind _ _ (Any-Keeps _) (λ _.
        Post-bind _ _ (Any-Keeps _) (λ r. Post-bind _ _ (Any-Keeps _) (λ before.
          Post-then _ _ (stale_check-Post v r before) (λ v'. fact-Post _ (checked-Post v v' r)))))))

  or_raise-Post : (n : ℕ) (o : Option ℕ) → Post (Found d keys o) (IsHit d keys) (or_raise p n o)
  unfolding or_raise
  or_raise-Post n none = search post_rules
  or_raise-Post n (some i) = Post-pure _ (λ s h. h)

  give_up-Post : (n : ℕ) → Post Any (IsHit d keys) (give_up p a keys n)
  unfolding give_up
  give_up-Post n =
      (Post-if a.last_try _ _
        (Post-bind _ _ (Any-Keeps _) (λ _. Post-bind _ _ (Any-Keeps _) (λ _.
          Post-bind _ _ (Any-Keeps _) (λ _.
            Post-bind _ _ (Any-Keeps _) (λ r. Post-then _ _ (check_it-Post r) (or_raise-Post n))))))
        (search post_rules))

  next-Post :
      (v : WaitVars) (rest : WaitVars → Act W (Option (ℕ × ℕ)))
      → ((v' : WaitVars)
          → v'.x ≡ v.x
          → leb a.loop_max (v'.x + 1) ≡ false
          → Post Any (IsHit d keys) (rest (record v' { x = v'.x + 1 })))
      → (w : Option ℕ × WaitVars) → Post (RoundDone v w) (IsHit d keys) (wait_next p a keys rest w)
  unfolding wait_next
  next-Post v rest k (some i, v') = Post-pure _ (λ s h. h.0)
  next-Post v rest k (none, v') = record {
    at = λ s h. elim (Bool-cases (leb a.loop_max (v'.x + 1))) [
      | inl last ↦ rw last ((give_up-Post v'.reconnect_count).at s tt)
      | inr more ↦ rw more ((k v' h.1 more).at s tt)
    ];
  }

  -- The rounds that are left are loop_max + 1 - x, at least one: the loop gives up in the last.
  wait_loop-Post :
      (rounds : ℕ) (v : WaitVars)
      → v.x + rounds ≡ a.loop_max + 1
      → 0 < rounds
      → Post Any (IsHit d keys) (wait_loop p a keys rounds v)
  unfolding wait_loop
  wait_loop-Post zero v x h = absurd (omega arith)
  wait_loop-Post (suc n) v x h = Post-then _ _ (wait_round-Post v) (
      next-Post v _ (λ v' q more.
        wait_loop-Post n _ (omega (tests, q, leb→lt _ _ more)) (omega (tests, q, leb→lt _ _ more))))

-- `wait_for_it`, called with at least one round, returns no None: where it raises no exception, its
-- index names a string of the table, in the sorted order, that has no callback.
pub wait_for_it-IsHit :
    {W : Type 0} (p : Platform W) (a : WaitArgs) (s : OpTestSystem W)
    → 0 < a.loop_max
    → Returns
        (IsHit a.expect_dict (sorted_keys a.expect_dict))
        (wait_for_it p a s).0
        (wait_for_it p a s).1
unfolding wait_for_it
wait_for_it-IsHit p a s h =
    (Post-bind _ _ (Any-Keeps _) (λ _.
        wait_loop-Post p a (sorted_keys a.expect_dict) a.loop_max first_vars (omega arith) h)).at
      s tt
