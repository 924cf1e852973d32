-- ===== src/Terminal/Ping.antt =====
-- `PingFunc`, `PingMTUCheck` and `ping_fail_check` of common/OpTestUtil.py. The pings and the sleep are
-- parameters. The numbers of tries and of seconds are natural: a negative `i_try` never ends the loop.
pub mod Count
use op_test.Prelude.{
  ℕ, zero, suc, ◌+◌, ◌-◌, Bool, true, false, Option, none, some, String, ◌==◌, str_eq, not,
  if◌then◌else◌,
}
use op_test.Exec.{Exec, pure, raise, modify, ◌>>=◌, ◌>>◌}
use op_test.Exceptions.{OpException, parameter_check}
use op_test.Lines.{contains}

abbrev pub Op : Type 0 → Type 0 → Type 0
Op W A = Exec W OpException A

-- subprocess with the output of the ping, and time.sleep in seconds
pub record Network (W : Type 0) : Type 0 where
  -- ping -c 2, ping -M do -s 1400 -c 5
  pub ping : String → Op W String
  pub ping_mtu : String → Op W String
  -- the text that `ping -c 1` and `echo $?` print
  pub ping_status : String → Op W String
  pub sleep : ℕ → W → W

-- BMC_CONST.PING_SUCCESS
abbrev pub ping_success : ℕ
ping_success = 2

module _ {W : Type 0} (sleep : ℕ → W → W) (probe : Op W String) (answer : String) where
  -- The loop on `i_try` and `sleepTime`, on fuel; `stuck` is what follows when it runs out.
  pub ping_rounds : Op W ℕ → ℕ → ℕ → ℕ → ℕ → Op W ℕ
  ping_rounds stuck total zero tries slept = stuck
  ping_rounds stuck total (suc rounds) tries slept =
      if tries == 0 then raise parameter_check else (do
        out ← probe
        if contains answer out then pure ping_success else (do
          modify (sleep 1)
          let over = slept + 1 == total
          ping_rounds stuck total rounds (if over then tries - 1 else tries)
              (if over then 0 else slept + 1)))

-- i_ip is None
abbrev pub with_address : {W : Type 0} → Option String → (String → Op W ℕ) → Op W ℕ
with_address none f = raise parameter_check
with_address (some ip) f = f ip

module _ {W : Type 0} (n : Network W) where
  pub ping_func : Op W ℕ → ℕ → Option String → ℕ → ℕ → Op W ℕ
  unfolding ping_rounds
  ping_func stuck rounds i_ip i_try total =
      with_address i_ip
        (λ ip. ping_rounds n.sleep (n.ping ip) "2 received" stuck total rounds i_try 0)

  pub ping_mtu_check : Op W ℕ → ℕ → Option String → ℕ → ℕ → Op W ℕ
  unfolding ping_rounds
  ping_mtu_check stuck rounds i_ip i_try total =
      with_address i_ip
        (λ ip. ping_rounds n.sleep (n.ping_mtu ip) "5 received" stuck total rounds i_try 0)

  -- `while count < 500`, with the rounds that are left; false is its `else`.
  pub down_rounds : ℕ → String → Op W Bool
  down_rounds zero ip = pure false
  down_rounds (suc rounds) ip = do
    status ← n.ping_status ip
    if not (str_eq status "0") then pure true else (do modify (n.sleep 2); down_rounds rounds ip)

  pub ping_fail_check : String → Op W Bool
  unfolding down_rounds
  ping_fail_check ip = down_rounds 500 ip
