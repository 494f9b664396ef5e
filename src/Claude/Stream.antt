-- ===== src/Claude/Stream.antt =====
-- internal/claude/stream: the parser of the lines that the CLI writes. encoding/json and the package
-- strings are a parameter.
pub mod Signals
use claude_ops.Prelude.{
  ℤ, pos, ℕ, ◌+◌, String, Bool, true, false, not, ◌&&◌, ◌||◌, Option, none, some, List, [], ◌∷◌,
  ◌++◌, if◌then◌else◌, str_eq,
}

-- The fields of a result event that are read.
pub record ResultEvent : Type 0 where
  pub subtype : String
  pub is_error : Bool
  pub result : String
  pub duration_ms : ℕ
  pub total_cost_usd : ℕ
  pub input_tokens : ℕ
  pub output_tokens : ℕ
  pub cache_read_input_tokens : ℕ
  pub cache_creation_input_tokens : ℕ
  -- the encoded usage of the models
  pub model_usage : String

pub record RateLimitInfo : Type 0 where
  pub status : String
  pub resets_at : ℤ
  pub rate_limit_type : String

-- A part of an assistant's message: its type and its text.
abbrev pub Content : Type 0
Content = String × String

-- What is decoded of a line; `none` is a line that does not decode. `api_key_source` is the field
-- after all attempts, "" where there is none.
pub record Decoder : Type 0 where
  pub trim : String → String
  pub event_type : String → Option String
  pub api_key_source : String → String
  pub assistant : String → Option (List Content)
  pub rate_limit : String → Option RateLimitInfo
  pub result_event : String → Option ResultEvent
  pub to_lower : String → String
  -- strings.Contains
  pub contains : String → String → Bool

pub data Signal : Type 0 where
  text : String → Signal
  usage_warning : Signal
  result : ResultEvent → Signal

pub data StreamError : Type 0 where
  rate_limited : ℤ → String → StreamError
  session_missing context_done : StreamError
  result_error : String → String → StreamError
  scanner_error : String → StreamError

-- A line, and whether the context is found done: at the check before the line, which is 0, and at
-- each send of the line, from 1 on.
pub record Line : Type 0 where
  pub raw : String
  pub context_done : ℕ → Bool

-- How the round of a line ends: with the next line, or with the return of an error or of nil.
pub data Step : Type 0 where
  next : Step
  stop : Option StreamError → Step

-- The signals of a round, and of the rounds after it.
abbrev pub then_rest :
    List Signal × Step → List Signal × Option StreamError → List Signal × Option StreamError
then_rest (sent, stop e) rest = (sent, e)
then_rest (sent, next) (more, e) = (sent ++ more, e)

module _ (d : Decoder) where
  open d use {
    trim, event_type, api_key_source, assistant, rate_limit, result_event, to_lower, contains,
  }

  -- the loop over the content, from send `n` on
  unfoldable pub send_texts : (ℕ → Bool) → ℕ → List Content → List Signal × Step
  send_texts is_done n [] = ([], next)
  send_texts is_done n ((kind, chunk) ∷ more) =
      let sends = str_eq kind "text" && not (str_eq chunk "") in
      let rest = send_texts is_done (if sends then n + 1 else n) more in
      if sends && is_done n
      then ([], stop (some context_done))
      else if sends
      then (text chunk ∷ rest.0, rest.1)
      else rest

  abbrev pub send : (ℕ → Bool) → Signal → Step → List Signal × Step
  send is_done signal after =
      if is_done 1 then ([], stop (some context_done)) else (signal ∷ [], after)

  abbrev mentions : String → String → Bool
  mentions message part = contains (to_lower message) part

  -- what follows the signal of a result that is an error
  unfoldable pub error_step : ResultEvent → Step
  error_step re =
      if mentions re.result "rate limit"
      then stop (some (rate_limited (pos 0) "unknown"))
      else if mentions re.result "please login" || mentions re.result "not logged in"
      then stop (some session_missing)
      else stop (some (result_error re.subtype re.result))

  unfoldable pub result_step : ResultEvent → Step
  result_step re = if re.is_error then error_step re else stop none

  abbrev pub on_assistant : (ℕ → Bool) → Option (List Content) → List Signal × Step
  on_assistant is_done none = ([], next)
  on_assistant is_done (some content) = send_texts is_done 1 content

  abbrev pub on_rate_limit : (ℕ → Bool) → Option RateLimitInfo → List Signal × Step
  on_rate_limit is_done none = ([], next)
  on_rate_limit is_done (some info) =
      if str_eq info.status "allowed"
      then send is_done usage_warning next
      else ([], stop (some (rate_limited info.resets_at info.rate_limit_type)))

  abbrev pub on_result : (ℕ → Bool) → Option ResultEvent → List Signal × Step
  on_result is_done none = ([], next)
  on_result is_done (some re) = send is_done (result re) (result_step re)

  abbrev pub on_init : String → List Signal × Step
  on_init source =
      if not (str_eq source "") && not (str_eq source "none")
      then ([], stop (some session_missing))
      else ([], next)

  -- the switch over the type of the envelope
  unfoldable pub on_event : String → (ℕ → Bool) → Option String → List Signal × Step
  on_event line is_done none = ([], next)
  on_event line is_done (some kind) =
      if str_eq kind "system.init"
      then on_init (api_key_source line)
      else if str_eq kind "assistant"
      then on_assistant is_done (assistant line)
      else if str_eq kind "rate_limit_event"
      then on_rate_limit is_done (rate_limit line)
      else if str_eq kind "result"
      then on_result is_done (result_event line)
      else ([], next)

  -- one round of the scanner's loop
  unfoldable pub parse_line : Line → List Signal × Step
  parse_line l =
      let line = trim l.raw in
      if l.context_done 0
      then ([], stop (some context_done))
      else if str_eq line ""
      then ([], next)
      else on_event line l.context_done (event_type line)

  -- ParseStream: the signals that it sends, and the error that it returns; `failure` is the scanner's
  -- error at the end.
  unfoldable pub parse_stream : List Line → Option String → List Signal × Option StreamError
  parse_stream [] none = ([], none)
  parse_stream [] (some failure) = ([], some (scanner_error failure))
  parse_stream (l ∷ lines) failure = then_rest (parse_line l) (parse_stream lines failure)
