-- ===== src/Slack.antt =====
-- internal/slack/verify.go, internal/slack/interactions.go and internal/api/slack_handler.go: a click on
-- the stop button, from the request to CancelTask. encoding/json, net/url, strconv and crypto/hmac are
-- parameters of the model.
pub mod Trusted
use Prim.Native.String
use Prim.Native.String.{slice, len}
use text.Mathlib.Text.{starts_with}
use claude_ops.Prelude.{
  ℕ, ◌+◌, ◌-◌, ◌*◌, ◌^◌, String, Bool, true, false, not, Option, none, some, List, [], ◌∷◌, ltb,
  leb, ℤ, pos, negsuc, Result, ok, err, Error, message, wrap, invalid_signature, if◌then◌else◌,
  str_eq, ◌>>=◌,
}
use claude_ops.Prelude.Exec.{Exec, and_then}
use claude_ops.Domain.Task.{Time}
use claude_ops.Scheduler.Cancel.{Running, cancel_task}
use claude_ops.Usecase.Budget.{unix_epoch}

pub record Action : Type 0 where
  pub action_id : String
  pub value : String

-- What the packages answer.
pub record Packages : Type 0 where
  -- strconv.ParseInt(s, 10, 64); `none` is an error
  pub parse_int : String → Option ℤ
  -- hex(hmac.Sum) under a secret
  pub mac : String → String → String
  -- url.ParseQuery, then Get("payload"), which is "" where it is not there
  pub payload : String → Option String
  -- json.Unmarshal into InteractionPayload
  pub actions : String → Option (List Action)

abbrev pub replay_window : ℕ
replay_window = 300 * 10 ^ 9

abbrev pub stop_task : String
stop_task = "stop_task"

infixr 65 ◌++◌
abbrev pub ◌++◌ : String → String → String
s ++ t = String.◌++◌ s t

-- time.Since(time.Unix(ts, 0)).Abs(), for seconds of either sign; a time.Duration holds 292 years, and
-- saturates beyond.
unfoldable pub age : Time → ℤ → ℕ
age now (pos n) = let at = (n + unix_epoch) * 10 ^ 9 in if leb at now then now - at else at - now
age now (negsuc n) = now + (n + 1) * 10 ^ 9 - unix_epoch * 10 ^ 9

-- strings.TrimPrefix(value, "task:")
unfoldable pub trim_task : String → String
trim_task value = if starts_with value "task:" then slice value (len "task:") (len value) else value

module _ (go : Packages) where
  -- the signature that VerifySignature expects
  abbrev pub expected : String → String → String → String
  expected timestamp body secret = "v0=" ++ go.mac secret ("v0:" ++ timestamp ++ ":" ++ body)

  verify_at : Time → String → String → String → String → Option ℤ → Result (Unit {0})
  verify_at now timestamp signature body secret none =
      err (wrap "parse timestamp" (message timestamp))
  verify_at now timestamp signature body secret (some ts) =
      if ltb replay_window (age now ts)
      then err (message "slack request timestamp expired")
      else if not (str_eq (expected timestamp body secret) signature)
      then err invalid_signature
      else ok tt

  -- VerifySignature
  unfoldable pub verify_signature : Time → String → String → String → String → Result (Unit {0})
  unfolding verify_at
  verify_signature now timestamp signature body secret =
      verify_at now timestamp signature body secret (go.parse_int timestamp)

  cancelled_one : String → Result (Unit {0}) → Result (Unit {0})
  cancelled_one id (ok u) = ok tt
  cancelled_one id (err e) = err (wrap "cancel task" e)

  -- The loop of HandleInteraction: it stops at the first failure.
  unfoldable pub handle_actions : List Action → Exec Running (Unit {0})
  unfolding cancelled_one
  handle_actions [] s = (ok tt, s)
  handle_actions (a ∷ more) s =
      let id = trim_task a.value in
      let (r, s') = cancel_task id s in
      let next = and_then (cancelled_one id r, s') (λ _. handle_actions more) in
      let skipped = handle_actions more s in
      if not (str_eq a.action_id stop_task)
      then skipped
      else if str_eq id ""
      then (err (message "empty task ID in stop action"), s)
      else next

  handle_decoded : Option (List Action) → Exec Running (Unit {0})
  handle_decoded none s = (err (message "parse interaction payload"), s)
  handle_decoded (some actions) s = handle_actions actions s

  -- HandleInteraction
  unfoldable pub handle_interaction : String → Exec Running (Unit {0})
  unfolding handle_decoded
  handle_interaction raw = handle_decoded (go.actions raw)

  -- A request of Slack: its headers, and its body, or `none` where reading it fails.
  pub record Request : Type 0 where
    pub timestamp : String
    pub signature : String
    pub body : Option String

  -- from the form on
  unfoldable pub handle_form : Option String → Running → ℕ × Running
  handle_form none s = (400, s)
  handle_form (some payload) s =
      if str_eq payload "" then (400, s) else (200, (handle_interaction payload s).1)

  handle_verified : Result (Unit {0}) → String → Running → ℕ × Running
  handle_verified (err e) body s = (401, s)
  handle_verified (ok u) body s = handle_form (go.payload body) s

  handle_body : Time → String → Request → Option String → Running → ℕ × Running
  unfolding handle_verified
  handle_body now secret r none s = (400, s)
  handle_body now secret r (some body) s =
      handle_verified (verify_signature now r.timestamp r.signature body secret) body s

  -- HandleInteractions: the status of the answer, and the workers after it
  unfoldable pub handle_interactions : Time → String → Request → Running → ℕ × Running
  unfolding handle_body
  handle_interactions now secret r = handle_body now secret r r.body
