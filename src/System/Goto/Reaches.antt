-- ===== src/System/Goto/Reaches.antt =====
-- `goto_state` as a whole, with any host.
use op_test.Prelude.{◌≡◌, Bool, true, arith}
use op_test.Exec.{pure, ◌>>=◌, ◌>>◌}
use op_test.Exec.Keeps.{Keeps}
use op_test.Exec.Post.{Post, Post-then, Post-bind, Post-pure, Post-weaken, Returns, Returns-weaken}
use op_test.Exceptions.{OpSystemState}
use op_test.System.State.{Shared, OpTestSystem, Act}
use op_test.System.Interface.{Platform, on_shared}
use op_test.System.Goto.{run_loop, check_nvram, goto_state}
use op_test.System.Goto.Ends.{goto_loop-Ended}

module _ {W : Type 0} (p : Platform W) where
  -- No precondition, and the postconditions of the loop with and without the state.
  abbrev Any : OpTestSystem W → Type 0
  Any s = Unit

  abbrev pub Done : OpSystemState → Bool → OpTestSystem W → Type 0
  Done target done s = (done ≡ true) × (s.state ≡ target)

  Any-Keeps : {A : Type 0} (m : Act W A) → Keeps Any m
  Any-Keeps m = record { at = λ s h. tt }

  run_loop-Post : (target : OpSystemState) → Post Any (Done target) (run_loop p target)
  unfolding run_loop ◌>>=◌
  run_loop-Post target = record {
    at = λ s h. Returns-weaken _ (Done target) (λ d s' r. r) _ _ (goto_loop-Ended p target s);
  }

  -- What follows the loop.
  after_loop-Post :
      (Q : Bool → OpTestSystem W → Type 0) (target : OpSystemState)
      → ((done : Bool) → Keeps (Q done) (check_nvram p target))
      → (done : Bool) → Post (Q done) Q (do check_nvram p target; pure done)
  after_loop-Post Q target k done = Post-bind _ _ (k done) (λ _. Post-pure done (λ s h. h))

  goto_state-Post :
      (Q : Bool → OpTestSystem W → Type 0) (target : OpSystemState)
      → Post Any Q (run_loop p target)
      → ((done : Bool) → Keeps (Q done) (check_nvram p target))
      → Post Any Q (goto_state p target)
  unfolding goto_state
  goto_state-Post Q target r k = Post-bind _ _ (Any-Keeps _) (λ _. Post-bind _ _ (Any-Keeps _) (λ _.
      Post-bind _ _ (Any-Keeps _) (λ s.
        Post-bind _ _ (Any-Keeps _)
          (λ _. Post-bind _ _ (Any-Keeps _) (λ _. Post-then _ _ r (after_loop-Post Q target k))))))

  -- `goto_state` ends whatever the host does: from any system, its loop stops by a test or by an
  -- exception before the rounds are used up, so that the result is never false.
  pub goto_state_ends :
      (target : OpSystemState) (s : OpTestSystem W)
      → Returns (λ done _. done ≡ true) (goto_state p target s).0 (goto_state p target s).1
  goto_state_ends target s =
      (goto_state-Post (λ done _. done ≡ true) target
          (Post-weaken (λ done s h. h.0) (run_loop-Post target))
          (λ done. record { at = λ s h. h })).at
        s tt

  module _ (quiet : (sh : Shared W) → (p.check_nvram_options sh).1.state ≡ sh.state) where
    check_nvram-Keeps :
        (target : OpSystemState) (done : Bool) → Keeps (Done target done) (check_nvram p target)
    unfolding check_nvram on_shared ◌>>=◌
    check_nvram-Keeps target done = record { at = λ s h. ground (arith, quiet s.shared) }

    -- Where the check of the NVRAM options leaves the state alone, `goto_state`, if it raises no
    -- exception, leaves the system in the target state.
    pub goto_state_reaches :
        (target : OpSystemState) (s : OpTestSystem W)
        → Returns (Done target) (goto_state p target s).0 (goto_state p target s).1
    goto_state_reaches target s =
        (goto_state-Post (Done target) target (run_loop-Post target) (check_nvram-Keeps target)).at
          s tt
