-- ===== src/Ssh/Pool/Untouched.antt =====
-- What reads the pool and the connections leaves the dict as it is.
use op_test.Prelude.{[], ◌∷◌}
use op_test.Exec.{◌>>=◌}
use op_test.Exec.Keeps.{Keeps, Keeps-pure, Keeps-gets, Keeps-bind, Keeps-if, keeps_rules}
use op_test.Ssh.Client.{Op}
use op_test.Ssh.Pool.{
  Connections, ConnectionInfo, ConnectionManager, Pooled, on_world, clock, is_young, is_usable,
  is_stale, stale_keys,
}

module _ {W : Type 0} (c : Connections W) (Holds : Pooled → Type 0) where
  abbrev OfDict : ConnectionManager W → Type 0
  OfDict s = Holds s.connections

  pub on_world-Keeps : {A : Type 0} (op : Op W A) → Keeps OfDict (on_world op)
  unfolding on_world
  on_world-Keeps op = record { at = λ s h. h }

  pub clock-Keeps : Keeps OfDict (clock c)
  unfolding clock ◌>>=◌
  clock-Keeps = record { at = λ s h. h }

  is_young-Keeps : (info : ConnectionInfo) → Keeps OfDict (is_young c info)
  unfolding is_young
  is_young-Keeps info =
      Keeps-bind _ _ clock-Keeps (λ now. Keeps-bind _ _ (Keeps-gets _) (λ s. Keeps-pure _))

  pub is_usable-Keeps : (info : ConnectionInfo) → Keeps OfDict (is_usable c info)
  unfolding is_usable
  is_usable-Keeps info =
      Keeps-bind _ _ (on_world-Keeps _)
        (λ healthy. Keeps-if healthy _ _ (is_young-Keeps info) (Keeps-pure _))

  pub is_stale-Keeps : (info : ConnectionInfo) → Keeps OfDict (is_stale c info)
  unfolding is_stale
  is_stale-Keeps info = search (keeps_rules, on_world-Keeps, clock-Keeps) depth 14

  pub stale_keys-Keeps : (d : Pooled) → Keeps OfDict (stale_keys c d)
  unfolding stale_keys
  stale_keys-Keeps [] = Keeps-pure []
  stale_keys-Keeps ((key, info) ∷ d) =
      Keeps-bind _ _ (is_stale-Keeps info)
        (λ stale. Keeps-bind _ _ (stale_keys-Keeps d) (λ keys. Keeps-pure _))
