-- ===== src/OpenBmc/Waits.antt =====
-- The waiting for a state of the host: how long it takes, and what it ends with.
use op_test.Prelude.{
  ℕ, zero, suc, ◌+◌, ◌*◌, ◌<◌, ◌≤◌, ◌≡◌, refl, subst, Bool, true, false, Option, none, some, String,
  List, [], ◌∷◌, ltb, ltb→le, arith, if◌then◌else◌,
}
use op_test.Exec.{pure, raise, gets, ◌>>=◌, ◌>>◌}
use op_test.Exec.Keeps.{Keeps, Keeps-pure, Keeps-raise, Keeps-bind, Keeps-if}
use op_test.Exec.Triple.{
  Ends, Triple, Triple-pure, Triple-raise, Triple-if, Triple-bind, Triple-read, Triple-modify,
  Triple-kept, bind-agree,
}
use op_test.Exceptions.{http_check}
use op_test.Json.{Json, obj, null, flag, num, str, arr, names, is_text, is_in, or_null, lookup}
use op_test.Json.Kept.{get_field-Keeps, is_in-Keeps}
use op_test.OpenBmc.{
  Op, Rest, pause, get_data, unpacked, run_names, shows, wait_bmc_rounds, wait_bmc,
}

-- Of the BMC: its clock does not go back while it is asked, whatever it answers, and a sleep takes its
-- time.
pub record HasClock {W : Type 0} (rest : Rest W) : Type 0 where
  pub asked_later :
      (uri : String) (minutes : Option ℕ) (t : ℕ)
      → Triple
          (λ w. t ≤ rest.now w)
          (λ v w. t ≤ rest.now w)
          (λ e w. Unit)
          (get_data rest uri minutes)
  pub sleep_later : (ms : ℕ) (w : W) → rest.now w + ms ≤ rest.now (rest.sleep ms w)

module _ {W : Type 0} (key target : String) (In : W → Type 0) where
  -- A dict that has the value under the key tells that the host is in the state.
  abbrev pub Tells : Json → W → Type 0
  Tells (obj dict) w = is_text target (or_null (lookup key dict)) ≡ true → In w
  Tells v w = ⊥

-- The BMC answers with a dict that is true, or the request fails.
pub record Reports {W : Type 0} (rest : Rest W) (uri key target : String) (minutes : ℕ)
    (In : W → Type 0) : Type 0 where
  pub tells :
      Triple
        (λ w. Unit)
        (Tells key target In)
        (λ e w. e ≡ http_check)
        (get_data rest uri (some minutes))

module _ {W : Type 0} (rest : Rest W) (uri key target : String) (minutes : ℕ) (In : W → Type 0)
    (reports : Reports rest uri key target minutes In) where
  abbrev pub Reached : Bool → W → Type 0
  Reached b w = (b ≡ true) × In w

  abbrev Ok : Op W Bool → Type 0
  Ok m = Triple (λ w. Unit) Reached (λ e w. e ≡ http_check) m

  -- What a round does with what the data shows
  after_shown :
      (v : Json) (next : Bool × Option String → Op W Bool)
      → ((there : Bool)
          → Triple
              (λ w. there ≡ true → In w)
              Reached
              (λ e w. e ≡ http_check)
              (next (there, some key)))
      → Triple
          (Tells key target In v)
          Reached
          (λ e w. e ≡ http_check)
          (shows rest v (some key) target >>= next)
  unfolding shows ◌>>=◌
  after_shown (obj dict) next h = record {
    at = (h (is_text target (or_null (lookup key dict)))).at;
  }
  after_shown null next h = record { at = λ w q. elim q [ ] }
  after_shown (flag b) next h = record { at = λ w q. elim q [ ] }
  after_shown (num n) next h = record { at = λ w q. elim q [ ] }
  after_shown (str t) next h = record { at = λ w q. elim q [ ] }
  after_shown (arr items) next h = record { at = λ w q. elim q [ ] }

  found-Ok :
      (there : Bool) (m : Op W Bool)
      → Ok m
      → Triple
          (λ w. there ≡ true → In w)
          Reached
          (λ e w. e ≡ http_check)
          (if there then pure true else m)
  found-Ok true m h = Triple-pure true (λ w q. (refl, q refl))
  found-Ok false m h = record { at = λ w q. h.at w tt }

  rounds-Ok :
      (rounds timeout : ℕ)
      → Ok (
          wait_bmc_rounds rest
            (raise http_check)
            rounds
            (some key)
            target
            uri
            (some minutes)
            timeout)
  unfolding wait_bmc_rounds
  rounds-Ok zero timeout = Triple-raise http_check (λ w q. refl)
  rounds-Ok (suc rounds) timeout = Triple-bind _ _ reports.tells (λ v. after_shown v _ (λ there.
      found-Ok there _ (
        Triple-read _ _ (λ t.
          Triple-if (ltb timeout t) _ _ (λ e. Triple-raise http_check (λ w q. refl))
            (λ e.
              Triple-bind {R = λ a w. Unit} _ _ (Triple-modify _ (λ w q. tt))
                (λ a. rounds-Ok rounds timeout))))))

module _ {W : Type 0} (rest : Rest W) (clock : HasClock rest) (stuck other : Op W Bool)
    (target uri : String) (minutes : Option ℕ) (timeout : ℕ) where
  -- What follows an answer agrees where the next rounds do.
  unless_late :
      (found : Bool × Option String) (f g : Option String → Op W Bool) (w : W)
      → (ltb timeout (rest.now w) ≡ false
          → (key : Option String) → f key (rest.sleep 5000 w) ≡ g key (rest.sleep 5000 w))
      → (if found.0
            then pure true
            else (gets rest.now >>= (λ t.
                if ltb timeout t then raise http_check else (pause rest 5000 >> f found.1))))
          w
        ≡ (if found.0
              then pure true
              else (gets rest.now >>= (λ t.
                  if ltb timeout t then raise http_check else (pause rest 5000 >> g found.1))))
            w
  unfolding ◌>>=◌
  unless_late (true, key) f g w next = refl
  unless_late (false, key) f g w next = in_time (ltb timeout (rest.now w)) next
    where
      in_time :
          (late : Bool)
          → (late ≡ false → (k : Option String) → f k (rest.sleep 5000 w) ≡ g k (rest.sleep 5000 w))
          → (if late then raise http_check else (pause rest 5000 >> f key)) w
            ≡ (if late then raise http_check else (pause rest 5000 >> g key)) w
      in_time true h = refl
      in_time false h = h refl key

  unpacked-Keeps : (t : ℕ) (name : String) → Keeps (λ w. t ≤ rest.now w) (unpacked rest name)
  unpacked-Keeps t String.[] = Keeps-raise _
  unpacked-Keeps t (String.◌∷◌ c String.[]) = Keeps-raise _
  unpacked-Keeps t (String.◌∷◌ c (String.◌∷◌ d String.[])) = Keeps-pure _
  unpacked-Keeps t (String.◌∷◌ c (String.◌∷◌ d (String.◌∷◌ e s))) = Keeps-raise _

  run_names-Keeps :
      (t : ℕ) (v : Json) (key : Option String) (xs : List String)
      → Keeps (λ w. t ≤ rest.now w) (run_names rest v target key xs)
  run_names-Keeps t v key [] = Keeps-pure _
  run_names-Keeps t v key (x ∷ xs) = Keeps-bind _ _ (unpacked-Keeps t x) (λ k.
      Keeps-bind _ _ (get_field-Keeps _ k v) (λ found.
        Keeps-if (is_text target found) _ _ (Keeps-pure _) (run_names-Keeps t v (some k) xs)))

  shown_in :
      (t : ℕ) (v : Json) (key : Option String)
      → Keeps {A = Bool × Option String}
          (λ w. t ≤ rest.now w)
          (do there ← is_in target v; pure (there, key))
  shown_in t v key = Keeps-bind _ _ (is_in-Keeps _ target v) (λ there. Keeps-pure _)

  shows-Keeps :
      (t : ℕ) (v : Json) (key : Option String)
      → Keeps (λ w. t ≤ rest.now w) (shows rest v key target)
  unfolding shows
  shows-Keeps t (obj dict) (some key) = Keeps-pure _
  shows-Keeps t (obj dict) none =
      Keeps-bind _ _ (run_names-Keeps t (obj dict) none (names dict)) (λ key. Keeps-pure _)
  shows-Keeps t null key = shown_in t null key
  shows-Keeps t (flag b) key = shown_in t (flag b) key
  shows-Keeps t (num n) key = shown_in t (num n) key
  shows-Keeps t (str s) key = shown_in t (str s) key
  shows-Keeps t (arr xs) key = shown_in t (arr xs) key

  one_round :
      (rounds : ℕ) (key : Option String) (w : W)
      → ((k : Option String) (v : W)
          → rest.now w ≤ rest.now v
          → ltb timeout (rest.now v) ≡ false
          → wait_bmc_rounds rest stuck rounds k target uri minutes timeout (rest.sleep 5000 v)
            ≡ wait_bmc_rounds rest other rounds k target uri minutes timeout (rest.sleep 5000 v))
      → wait_bmc_rounds rest stuck (suc rounds) key target uri minutes timeout w
        ≡ wait_bmc_rounds rest other (suc rounds) key target uri minutes timeout w
  unfolding wait_bmc_rounds
  one_round rounds key w next =
      bind-agree {R = λ a x. rest.now w ≤ rest.now x} _ _
        (clock.asked_later uri minutes (rest.now w))
        (λ v x k.
          bind-agree {R = λ a y. rest.now w ≤ rest.now y} _ _
            (Triple-kept (shows-Keeps (rest.now w) v key))
            (λ found y l.
              unless_late found
                (λ q. wait_bmc_rounds rest stuck rounds q target uri minutes timeout)
                (λ q. wait_bmc_rounds rest other rounds q target uri minutes timeout) y
                (λ e q. next q y l e))
            x k)
        w (omega arith)

  too_late :
      (w v : W)
      → timeout < rest.now w + 0
      → rest.now w ≤ rest.now v
      → ltb timeout (rest.now v) ≡ false
      → ⊥
  too_late w v h k e = omega (arith, h, k, ltb→le timeout (rest.now v) e)

  enough :
      (rounds : ℕ) (key : Option String) (w : W)
      → timeout < rest.now w + rounds
      → wait_bmc_rounds rest stuck (suc rounds) key target uri minutes timeout w
        ≡ wait_bmc_rounds rest other (suc rounds) key target uri minutes timeout w
  enough zero key w h = one_round zero key w (λ q v k e. elim (too_late w v h k e) [ ])
  enough (suc rounds) key w h = one_round (suc rounds) key w (λ q v k e.
      enough rounds q (rest.sleep 5000 v) (omega (arith, h, k, clock.sleep_later 5000 v)))

module _ {W : Type 0} (rest : Rest W) (clock : HasClock rest) where
  -- Where the clock of the BMC does not go back and a sleep takes its time, `wait_bmc` asks no more
  -- often than its minutes have milliseconds, and twice: with so many rounds its outcome does not
  -- depend on what follows when they run out.
  pub wait_bmc_ends :
      (stuck other : Op W Bool) (rounds : ℕ) (key : Option String) (target uri : String)
      (minutes : ℕ) (w : W)
      → 60000 * minutes < rounds
      → wait_bmc rest stuck (suc rounds) key target uri minutes w
        ≡ wait_bmc rest other (suc rounds) key target uri minutes w
  unfolding wait_bmc ◌>>=◌
  wait_bmc_ends stuck other rounds key target uri minutes w h =
      enough rest clock stuck other target uri (some minutes) _ rounds key w (omega (arith, h))

  waited :
      (key target uri : String) (minutes : ℕ) (In : W → Type 0)
      (reports : Reports rest uri key target minutes In) (rounds : ℕ)
      → Triple
          (λ v. Unit)
          (λ b v. (b ≡ true) × In v)
          (λ e v. e ≡ http_check)
          (wait_bmc rest (raise http_check) rounds (some key) target uri minutes)
  unfolding wait_bmc
  waited key target uri minutes In reports rounds =
      Triple-read _ _
        (λ t. rounds-Ok rest uri key target minutes In reports rounds (t + 60000 * minutes))

  -- Where besides the BMC answers with a dict that is true, or the request fails with HTTPCheck:
  -- with enough rounds `wait_bmc` for the value of a key returns true, with the host in the state, or
  -- raises HTTPCheck.
  pub wait_bmc_outcome :
      (key target uri : String) (minutes : ℕ) (In : W → Type 0)
      (reports : Reports rest uri key target minutes In) (stuck : Op W Bool) (rounds : ℕ) (w : W)
      → 60000 * minutes < rounds
      → Ends
          (λ b v. (b ≡ true) × In v)
          (λ e v. e ≡ http_check)
          (wait_bmc rest stuck (suc rounds) (some key) target uri minutes w).0
          (wait_bmc rest stuck (suc rounds) (some key) target uri minutes w).1
  wait_bmc_outcome key target uri minutes In reports stuck rounds w h =
      subst (λ end. Ends (λ b v. (b ≡ true) × In v) (λ e v. e ≡ http_check) end.0 end.1)
        (wait_bmc_ends (raise http_check) stuck rounds (some key) target uri minutes w h)
        ((waited key target uri minutes In reports (suc rounds)).at w tt)
