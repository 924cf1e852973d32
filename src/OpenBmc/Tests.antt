-- ===== src/OpenBmc/Tests.antt =====
-- BMCs that answer, and the theorems on class HostManagement and class OpTestOpenBMC applied to them.
use Prim.Native.String.{◌++◌ as append}
use op_test.Prelude.{
  ℕ, ◌+◌, ◌≤◌, ◌≡◌, refl, Bool, true, false, none, some, String, [], ◌∷◌, ltb, ltb→le, str_eq,
  arith, if◌then◌else◌,
}
use op_test.Exec.{ok, err, ◌>>=◌}
use op_test.Exec.Triple.{Ends}
use op_test.Exceptions.{http_check, command_failed, negsuc, pexpect_timeout}
use op_test.Lines.{contains}
use op_test.Json.{Json, null, str, obj, field, no_fields}
use op_test.Http.{Response}
use op_test.OpenBmc.{Rest, get_data, get_json, http_retry, wait_bmc}
use op_test.OpenBmc.Waits.{HasClock, Reports, wait_bmc_ends, wait_bmc_outcome}
use op_test.OpenBmc.Images.{
  image_ids, get_list_of_image_ids, purpose_of, image_data, list_ids, list_one, remove_others,
}
use op_test.OpenBmc.Images.Purposes.{HasPurposes, mapped, filter, wanted, image_ids_filtered}
use op_test.Bmc.{BmcHost}
use op_test.OpenBmc.Flash.{query_vpnor}
use op_test.OpenBmc.Flash.Once.{query_vpnor_once}

abbrev answer : Json → Response
answer v = record {
  status_code = 200;
  body = some (obj (field "data" v no_fields));
  text = "";
  set_cookie = none;
}

abbrev host_state : ℕ → String
host_state t =
    if ltb t 9000
    then "xyz.openbmc_project.State.Host.HostState.Running"
    else "xyz.openbmc_project.State.Host.HostState.Off"

-- A host that is off after nine seconds; the world is the time.
abbrev falling : Rest ℕ
falling = record {
  request = λ verb req t.
      (ok (answer (obj (field "CurrentHostState" (str (host_state t)) no_fields))), t + 20);
  ping_func = λ seconds t. (ok 2, t);
  ping_fail_check = λ t. (ok true, t);
  now = λ t. t;
  sleep = λ ms t. t + ms;
}

falling-HasClock : HasClock falling
unfolding get_data get_json ◌>>=◌
falling-HasClock = record {
  asked_later = λ uri minutes t. record { at = λ w h. omega (arith, h) };
  sleep_later = λ ms w. omega arith;
}

waiting_ends :
    wait_bmc falling (λ w. (err http_check, w)) 60002 none "Ready" "/xyz" 1 0
    ≡ wait_bmc falling (λ w. (err pexpect_timeout, w)) 60002 none "Ready" "/xyz" 1 0
waiting_ends =
    wait_bmc_ends falling falling-HasClock (λ w. (err http_check, w))
      (λ w. (err pexpect_timeout, w)) 60001 none "Ready" "/xyz" 1 0 (omega arith)

abbrev host_off : String
host_off = "xyz.openbmc_project.State.Host.HostState.Off"

falling-Reports : Reports falling "/host0" "CurrentHostState" host_off 1 (λ w. 9000 ≤ w)
unfolding get_data get_json ◌>>=◌
falling-Reports = record { tells = record { at = λ w h. off_late (ltb w 9000) w refl } }
  where
    off_late :
        (early : Bool) (w : ℕ)
        → ltb w 9000 ≡ early
        → str_eq
            (if early
              then "xyz.openbmc_project.State.Host.HostState.Running"
              else "xyz.openbmc_project.State.Host.HostState.Off")
            host_off
          ≡ true
        → 9000 ≤ w + 20
    off_late true w e h = let no : ⊥ = cc in elim no [ ]
    off_late false w e h = omega (arith, ltb→le w 9000 e)

wait_bmc_outcome_example :
    Ends
      (λ b v. (b ≡ true) × (9000 ≤ v))
      (λ e v. e ≡ http_check)
      (wait_bmc falling
        (λ w. (err pexpect_timeout, w))
        60002
        (some "CurrentHostState")
        host_off
        "/host0"
        1
        0).0
      (wait_bmc falling
        (λ w. (err pexpect_timeout, w))
        60002
        (some "CurrentHostState")
        host_off
        "/host0"
        1
        0).1
wait_bmc_outcome_example =
    wait_bmc_outcome falling falling-HasClock "CurrentHostState" host_off "/host0" 1 (λ w. 9000 ≤ w)
      falling-Reports (λ w. (err pexpect_timeout, w)) 60001 0 (omega arith)

-- Two images for the host and one for the BMC, of which one is listed twice
abbrev kind_of : String → Json
kind_of uri = if contains "/b" uri then str "BMC" else str "Host"

abbrev stored : Rest Unit
stored = record {
  request = λ verb req w. (
    ok (
        answer (
          obj (
            field "Purpose" (kind_of req.uri) (
              field "/xyz/openbmc_project/software/a1" null (
                field "/xyz/openbmc_project/software/b1" null (
                  field "/xyz/openbmc_project/software/a1" null
                    (field "/xyz/openbmc_project/software/a2" null no_fields))))))),
    w,
  );
  ping_func = λ seconds w. (ok 2, w);
  ping_fail_check = λ w. (ok true, w);
  now = λ w. 0;
  sleep = λ ms w. w;
}

abbrev purposes : String → Json
purposes id = kind_of (append "/xyz/openbmc_project/software/" (append id ""))

stored-HasPurposes : HasPurposes stored http_retry purposes
unfolding purpose_of image_data get_json ◌>>=◌
stored-HasPurposes = record { tells = λ id w. (w, refl) }

image_ids_filtered_example :
    (image_ids stored (some "BMC") http_retry tt).0
    ≡ mapped
        (filter (wanted stored http_retry purposes stored-HasPurposes (some "BMC")))
        (get_list_of_image_ids stored http_retry tt).0
image_ids_filtered_example =
    image_ids_filtered stored http_retry purposes stored-HasPurposes (some "BMC") tt

bmc_images : (image_ids stored (some "BMC") http_retry tt).0 ≡ ok ("b1" ∷ [])
unfolding image_ids get_list_of_image_ids list_ids list_one remove_others purpose_of image_data
    get_data get_json ◌>>=◌
bmc_images = refl

-- A BMC without pflash
abbrev bare : BmcHost ℕ
bare = record {
  ssh_command = λ command timeout w. (err (command_failed command [] (negsuc 0)), w + 1);
  close = λ w. (ok tt, w);
  ping_fail_check = λ w. (ok true, w);
  ping_func = λ seconds w. (ok 2, w);
  check_call = λ w. (ok tt, w);
  sleep = λ seconds w. w;
}

query_vpnor_once_example :
    Ends
      (λ known x. query_vpnor bare (λ w. (ok true, w)) x ≡ (ok known, x))
      (λ e x. x.has_vpnor ≡ none)
      (query_vpnor bare (λ w. (ok true, w)) (record { has_vpnor = none; world = 0 })).0
      (query_vpnor bare (λ w. (ok true, w)) (record { has_vpnor = none; world = 0 })).1
query_vpnor_once_example =
    query_vpnor_once bare (λ w. (ok true, w)) (record { has_vpnor = none; world = 0 })
