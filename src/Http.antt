-- ===== src/Http.antt =====
-- class Server of common/OpTestUtil.py: requests to a server, with the login and the retries. The
-- session of `requests` is a parameter; the arguments of a request that are only passed on (`files`,
-- `stream`, `verify`) are left out, and the texts of the errors. Times are in milliseconds.
pub mod Attempts
pub mod Outcome
pub mod Bound
mod Tests
use Prim.Native.Char.{Char, code}
use op_test.Prelude.{
  ℕ, zero, suc, ◌+◌, ◌*◌, Bool, true, false, not, ◌&&◌, ◌||◌, Option, none, some, String, ltb, leb,
  ◌==◌, str_eq, if◌then◌else◌,
}
use Prim.Native.String.{◌++◌ as append}
use op_test.Exec.{Exec, pure, raise, gets, modify, catching, ◌>>=◌, ◌>>◌}
use op_test.Exceptions.{OpException, http_check, key_error, value_error}
use op_test.Json.{
  Json, str, arr, item, no_items, obj, field, no_fields, get_field, at_name, after, truthy, is_text,
}

pub data Verb : Type 0 where
  get_it put_it post_it delete_it : Verb

-- The keyword arguments of a request (`form` is `data`); `minutes` is None for a request without retries.
pub record Request : Type 0 where
  pub uri : String
  pub json : Option Json
  pub params : Option Json
  pub form : Option Json
  pub minutes : Option ℕ

-- r.json(), r.text and the header Set-Cookie; without a JSON `r.json()` raises ValueError.
pub record Response : Type 0 where
  pub status_code : ℕ
  pub body : Option Json
  pub text : String
  pub set_cookie : Option String

-- The requests session, time.time() and time.sleep
pub record HttpSession (W : Type 0) : Type 0 where
  pub request : Verb → String → Request → Exec W OpException Response
  pub now : W → ℕ
  pub sleep : ℕ → W → W

-- The attributes that the methods use; the token stands for xAuthHeader and its entry in jsonHeader.
pub record Server (W : Type 0) : Type 0 where
  pub base_url : String
  pub username : String
  pub password : String
  pub token : Option String
  pub world : W

abbrev pub Act : Type 0 → Type 0 → Type 0
Act W A = Exec (Server W) OpException A

-- requests.codes
abbrev pub codes_ok : ℕ
codes_ok = 200

abbrev pub codes_unauthorized : ℕ
codes_unauthorized = 401

abbrev is_word : Char → Bool
is_word c =
    (leb 48 (code c) && leb (code c) 57)
    || (leb 65 (code c) && leb (code c) 90)
    || (code c == 95)
    || (leb 97 (code c) && leb (code c) 122)

-- The word characters up to a semicolon; the flag says that one has been read.
abbrev word_of : Bool → String → Option String
word_of seen String.[] = none
word_of seen (String.◌∷◌ c s) =
    let rest = word_of true s in
    if is_word c
    then elim rest [ none ↦ none | some w ↦ some (String.◌∷◌ c w) ]
    else if (code c == 59) && seen
    then some String.[]
    else none

abbrev word_after : Option String → Option String
word_after none = none
word_after (some s) = word_of false s

-- The group of re.search('SESSION=(\w+);', cookie), whose words are those of ASCII here
abbrev pub session_token : String → Option String
session_token String.[] = none
session_token (String.◌∷◌ c s) =
    let rest = session_token s in
    elim (word_after (after "SESSION=" (String.◌∷◌ c s))) [ none ↦ rest | some w ↦ some w ]

abbrev request_of : String → Option Json → Option ℕ → Request
request_of uri json minutes = record {
  uri = uri;
  json = json;
  params = none;
  form = none;
  minutes = minutes;
}

-- The arguments of a request with a payload or without
abbrev pub asking : String → Option ℕ → Request
asking uri minutes = request_of uri none minutes

abbrev pub sending : String → Json → Option ℕ → Request
sending uri json minutes = request_of uri (some json) minutes

abbrev pub or_value_error : {S : Type 0} → Option Json → Exec S OpException Json
or_value_error none = raise value_error
or_value_error (some v) = pure v

-- r.json()
abbrev pub json_of : {S : Type 0} → Response → Exec S OpException Json
json_of r = or_value_error r.body

abbrev pub or_else : {A : Type 0} → A → Option A → A
or_else a none = a
or_else a (some b) = b

module _ {W : Type 0} (session : HttpSession W) where
  unfoldable pub on_session : {A : Type 0} → Exec W OpException A → Act W A
  on_session op s = let (r, w) = op s.world in (r, record s { world = w })

  unfoldable pub pause : ℕ → Act W Unit
  pause ms = modify (λ s. record s { world = session.sleep ms s.world })

  unfoldable pub clock : Act W ℕ
  clock = gets (λ s. session.now s.world)

  abbrev pub url : Server W → String → String
  url s suffix = append s.base_url suffix

  -- A request over the session, past the loop
  unfoldable pub send_once : Verb → Request → Act W Response
  unfolding on_session
  send_once verb req = do s ← gets (λ s. s); on_session (session.request verb (url s req.uri) req)

  -- The token of a cookie, where it has one
  abbrev pub keep_token : Option String → Act W Unit
  keep_token none = pure tt
  keep_token (some w) = modify (λ s. record s { token = some w })

  -- `r.headers['Set-Cookie']`
  abbrev pub take_cookie : Option String → Act W Unit
  take_cookie none = raise key_error
  take_cookie (some cookie) = keep_token (session_token cookie)

  -- The status of the answer, which a token in it stands for
  abbrev pub check_status : Json → Act W Unit
  check_status json_data = do
    found ← get_field "token" json_data
    if truthy found then pure tt else (do
      status ← at_name "status" json_data
      if not (is_text "ok" status) then raise http_check else pure tt)

  unfoldable pub login_as : String → String → Act W Response
  unfolding send_once
  login_as username password =
      catching
        (do
          r ← send_once post_it (
              sending "/login"
                (obj (
                  field "data" (arr (item (str username) (item (str password) no_items)))
                    no_fields))
                none)
          if not (r.status_code == codes_ok) then raise http_check else (do
            take_cookie r.set_cookie
            json_data ← json_of r
            check_status json_data
            pure r))
        (λ e. raise http_check)

  -- The names that are not given are those of the server.
  unfoldable pub login : Option String → Option String → Act W Response
  unfolding login_as
  login username password = do
    s ← gets (λ s. s)
    login_as (or_else s.username username) (or_else s.password password)

  -- None is returned for an exception.
  pub logout : Act W (Option Response)
  unfolding send_once
  logout =
      catching
        (do
          r ←
              send_once post_it
                (sending "/logout" (obj (field "data" (arr no_items) no_fields)) none)
          pure (some r))
        (λ e. pure none)

  -- A failed try: without `minutes` the exception is the caller's, else the loop goes on.
  unfoldable pub later : {A : Type 0} → Option ℕ → OpException → Act W (Option A)
  later none e = raise e
  later (some minutes) e = do pause 5000; pure none

  -- An answer that is not ok: without `minutes` it is the caller's.
  unfoldable pub not_ok : Option ℕ → Response → Act W (Option Response)
  not_ok none r = pure (some r)
  not_ok (some minutes) r = do pause 5000; pure none

  -- What is done with an answer: none is another round.
  unfoldable pub judge : Option ℕ → Response → Act W (Option Response)
  unfolding login later not_ok
  judge minutes r =
      if r.status_code == codes_unauthorized
      then catching (do login none none; pure none) (later minutes)
      else if r.status_code == codes_ok
      then pure (some r)
      else not_ok minutes r

  abbrev pub judged : Option ℕ → Option Response → Act W (Option Response)
  judged minutes none = pure none
  judged minutes (some r) = judge minutes r

  unfoldable pub try_once : Verb → Request → Act W (Option Response)
  unfolding send_once judge later
  try_once verb req = do
    found ← catching (do r ← send_once verb req; pure (some r)) (later req.minutes)
    judged req.minutes found

  abbrev pub or_go_on : Act W Response → Option Response → Act W Response
  or_go_on rest none = rest
  or_go_on rest (some r) = pure r

  -- `while True`, on fuel; `stuck` is what follows when it runs out.
  unfoldable pub loop_rounds : Act W Response → ℕ → Verb → Request → ℕ → Act W Response
  loop_rounds stuck zero verb req loop_time = stuck
  loop_rounds stuck (suc rounds) verb req loop_time = do
    t ← clock
    if ltb loop_time t then raise http_check else (do
      done ← try_once verb req
      or_go_on (loop_rounds stuck rounds verb req loop_time) done)

  -- Five minutes are enough for a request without retries.
  abbrev pub loop_minutes : Option ℕ → ℕ
  loop_minutes none = 5
  loop_minutes (some m) = m

  unfoldable pub loop_it : Act W Response → ℕ → Verb → Request → Act W Response
  loop_it stuck rounds verb req = do
    t ← clock
    loop_rounds stuck rounds verb req (t + 60000 * loop_minutes req.minutes)

  -- `get`, `put`, `post` and `delete`, with the rounds that the minutes leave
  unfoldable pub request_it : Verb → Request → Act W Response
  unfolding loop_it
  request_it verb req = loop_it (raise http_check) (60000 * loop_minutes req.minutes + 2) verb req
