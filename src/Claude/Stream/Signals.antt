-- ===== src/Claude/Stream/Signals.antt =====
-- What a stream says, described by its lines alone, and the signals that the parser of
-- internal/claude/stream/parser.go makes of it.
use claude_ops.Prelude.{
  ℕ, ◌+◌, String, ◌≡◌, refl, ap, ◌∙◌, Bool, true, false, not, ◌&&◌, ◌||◌, Option, none, some, List,
  [], ◌∷◌, ◌++◌, inl, inr, if◌then◌else◌, Bool-cases, Option-cases, str_eq, eq_iff,
}
use claude_ops.Claude.Stream.{
  Decoder, Content, Line, Signal, text, usage_warning, result, StreamError, ResultEvent, Step, next,
  stop, send_texts, on_event, on_assistant, on_rate_limit, on_result, on_init, result_step,
  error_step, parse_line, parse_stream, RateLimitInfo, then_rest,
}
use claude_ops.Claude.Runner.{text_parts, last_result}

-- The texts of a message that are not empty.
abbrev pub texts_of : List Content → List String
texts_of [] = []
texts_of ((kind, chunk) ∷ more) =
    let rest = texts_of more in
    if str_eq kind "text" && not (str_eq chunk "") then chunk ∷ rest else rest

abbrev pub texts_in : Option (List Content) → List String
texts_in none = []
texts_in (some content) = texts_of content

-- What a line of a type says: its texts, and the result.
abbrev pub said : Decoder → String → Option String → List String × Option ResultEvent
said d line none = ([], none)
said d line (some kind) =
    if str_eq kind "assistant"
    then (texts_in (d.assistant line), none)
    else if str_eq kind "result"
    then ([], d.result_event line)
    else ([], none)

abbrev pub heard : Decoder → Line → List String × Option ResultEvent
heard d l =
    if str_eq (d.trim l.raw) ""
    then ([], none)
    else said d (d.trim l.raw) (d.event_type (d.trim l.raw))

abbrev up_to_result :
    List String × Option ResultEvent
    → List String × Option ResultEvent
    → List String × Option ResultEvent
up_to_result (texts, some re) rest = (texts, some re)
up_to_result (texts, none) (more, re) = (texts ++ more, re)

-- The texts of the lines up to the first result, and that result.
unfoldable pub transcript : Decoder → List Line → List String × Option ResultEvent
transcript d [] = ([], none)
transcript d (l ∷ lines) = up_to_result (heard d l) (transcript d lines)

-- What the round of a line promises of what the line says.
abbrev Told : List Signal × Step → List String × Option ResultEvent → Type 0
Told (sent, next) h = (text_parts sent ≡ h.0) × (last_result sent ≡ none) × (h.1 ≡ none)
Told (sent, stop none) h =
    (re : ResultEvent) × (sent ≡ result re ∷ []) × (h ≡ ([], some re)) × (re.is_error ≡ false)
Told (sent, stop (some e)) h = Unit {0}

text-Told :
    (chunk : String) (r : List Signal × Step) (texts : List String)
    → Told r (texts, none)
    → Told (text chunk ∷ r.0, r.1) (chunk ∷ texts, none)
unfolding text_parts last_result
text-Told chunk (sent, next) texts (a, b, c) = (ap (λ xs. chunk ∷ xs) a, b, c)
text-Told chunk (sent, stop none) texts (re, a, b, c) = absurd (no_result (ap (λ x. x.1) b))
  where
    no_result : ¬ (◌≡◌ {A = Option ResultEvent} none (some re))
    no_result x = cc
text-Told chunk (sent, stop (some e)) texts h = tt

send_texts-Told :
    (d : Decoder) (is_done : ℕ → Bool) (n : ℕ) (content : List Content)
    → Told (send_texts d is_done n content) (texts_of content, none)
unfolding send_texts text_parts last_result
send_texts-Told d is_done n [] = (refl, refl, refl)
send_texts-Told d is_done n ((kind, chunk) ∷ more) =
    elim (Bool-cases (str_eq kind "text" && not (str_eq chunk ""))) [
      | inl p ↦ elim (Bool-cases (is_done n)) [
        | inl q ↦ rw (p, q) tt
        | inr q ↦
            rw (p, q)
              (text-Told chunk (send_texts d is_done (n + 1) more) (texts_of more)
                (send_texts-Told d is_done (n + 1) more))
      ]
      | inr p ↦ rw p (send_texts-Told d is_done n more)
    ]

error_step-Told :
    (d : Decoder) (re : ResultEvent) → Told (result re ∷ [], error_step d re) ([], some re)
unfolding error_step
error_step-Told d re = elim (Bool-cases (d.contains (d.to_lower re.result) "rate limit")) [
  | inl q ↦ rw q tt
  | inr q ↦
      elim (Bool-cases (
        d.contains (d.to_lower re.result) "please login"
        || d.contains (d.to_lower re.result) "not logged in")) [
          | inl r ↦ rw (q, r) tt
          | inr r ↦ rw (q, r) tt
        ]
]

result_step-Told :
    (d : Decoder) (re : ResultEvent) → Told (result re ∷ [], result_step d re) ([], some re)
unfolding result_step
result_step-Told d re = by_error re.is_error refl
  where
    by_error :
        (b : Bool)
        → re.is_error ≡ b
        → Told (result re ∷ [], if b then error_step d re else stop none) ([], some re)
    by_error true e = error_step-Told d re
    by_error false e = (re, refl, refl, e)

on_result-Told :
    (d : Decoder) (is_done : ℕ → Bool) (re : Option ResultEvent)
    → Told (on_result d is_done re) ([], re)
unfolding text_parts last_result
on_result-Told d is_done none = (refl, refl, refl)
on_result-Told d is_done (some re) = elim (Bool-cases (is_done 1)) [
  | inl q ↦ rw q tt
  | inr q ↦ rw q (result_step-Told d re)
]

on_rate_limit-Told :
    (d : Decoder) (is_done : ℕ → Bool) (info : Option RateLimitInfo)
    → Told (on_rate_limit d is_done info) ([], none)
unfolding text_parts last_result
on_rate_limit-Told d is_done none = (refl, refl, refl)
on_rate_limit-Told d is_done (some info) = elim (Bool-cases (str_eq info.status "allowed")) [
  | inl p ↦ elim (Bool-cases (is_done 1)) [
    | inl q ↦ rw (p, q) tt
    | inr q ↦ rw (p, q) (refl, refl, refl)
  ]
  | inr p ↦ rw p tt
]

on_assistant-Told :
    (d : Decoder) (is_done : ℕ → Bool) (content : Option (List Content))
    → Told (on_assistant d is_done content) (texts_in content, none)
unfolding text_parts last_result
on_assistant-Told d is_done none = (refl, refl, refl)
on_assistant-Told d is_done (some content) = send_texts-Told d is_done 1 content

on_init-Told : (d : Decoder) (source : String) → Told (on_init d source) ([], none)
unfolding text_parts last_result
on_init-Told d source = elim (Bool-cases (not (str_eq source "") && not (str_eq source "none"))) [
  | inl p ↦ rw p tt
  | inr p ↦ rw p (refl, refl, refl)
]

on_event-Told :
    (d : Decoder) (line : String) (is_done : ℕ → Bool) (kind : Option String)
    → Told (on_event d line is_done kind) (said d line kind)
unfolding on_event text_parts last_result
on_event-Told d line is_done none = (refl, refl, refl)
on_event-Told d line is_done (some kind) = elim (Bool-cases (str_eq kind "system.init")) [
  | inl p ↦ rw ((eq_iff kind "system.init").0 p) (on_init-Told d (d.api_key_source line))
  | inr p ↦ elim (Bool-cases (str_eq kind "assistant")) [
    | inl q ↦ rw (p, q) (on_assistant-Told d is_done (d.assistant line))
    | inr q ↦ elim (Bool-cases (str_eq kind "rate_limit_event")) [
      | inl r ↦
          rw ((eq_iff kind "rate_limit_event").0 r)
            (on_rate_limit-Told d is_done (d.rate_limit line))
      | inr r ↦ elim (Bool-cases (str_eq kind "result")) [
        | inl t ↦ rw (p, q, r, t) (on_result-Told d is_done (d.result_event line))
        | inr t ↦ rw (p, q, r, t) (refl, refl, refl)
      ]
    ]
  ]
]

parse_line-Told : (d : Decoder) (l : Line) → Told (parse_line d l) (heard d l)
unfolding parse_line text_parts last_result
parse_line-Told d l = elim (Bool-cases (l.context_done 0)) [
  | inl p ↦ rw p tt
  | inr p ↦ elim (Bool-cases (str_eq (d.trim l.raw) "")) [
    | inl q ↦ rw (p, q) (refl, refl, refl)
    | inr q ↦
        rw (p, q) (on_event-Told d (d.trim l.raw) l.context_done (d.event_type (d.trim l.raw)))
  ]
]

text_parts-append : (a b : List Signal) → text_parts (a ++ b) ≡ text_parts a ++ text_parts b
unfolding text_parts
text_parts-append [] b = refl
text_parts-append (text chunk ∷ a) b = ap (λ xs. chunk ∷ xs) (text_parts-append a b)
text_parts-append (usage_warning ∷ a) b = text_parts-append a b
text_parts-append (result re ∷ a) b = text_parts-append a b

last_result-append :
    (a b : List Signal) → last_result a ≡ none → last_result (a ++ b) ≡ last_result b
unfolding last_result
last_result-append [] b h = refl
last_result-append (text chunk ∷ a) b h = last_result-append a b h
last_result-append (usage_warning ∷ a) b h = last_result-append a b h
last_result-append (result re ∷ a) b h = elim (Option-cases (last_result a)) [
  | inl e ↦ absurd (found (rw e at h))
  | inr (x, e) ↦ absurd (found (rw e at h))
]
  where
    found : {y : ResultEvent} → ¬ (◌≡◌ {A = Option ResultEvent} (some y) none)
    found x = cc

-- What a parser that returns no error has sent: the texts of the transcript and its result, which is
-- no error.
abbrev pub IsTold : List Signal → List String × Option ResultEvent → Type 0
IsTold sent h =
    (text_parts sent ≡ h.0)
    × (last_result sent ≡ h.1)
    × ((re : ResultEvent) → h.1 ≡ some re → re.is_error ≡ false)

then_rest-IsTold :
    (r : List Signal × Step) (h : List String × Option ResultEvent)
    (rest : List Signal × Option StreamError) (later : List String × Option ResultEvent)
    → Told r h
    → (rest.1 ≡ none → IsTold rest.0 later)
    → (then_rest r rest).1 ≡ none
    → IsTold (then_rest r rest).0 (up_to_result h later)
unfolding text_parts last_result
then_rest-IsTold (sent, next) (texts, some re) (more, e) later (a, b, c) k q = absurd (cc)
then_rest-IsTold (sent, next) (texts, none) (more, e) (later, end) (a, b, c) k q =
    let (x, y, z) = k q in
    (text_parts-append sent more ∙ rw (a, x) refl, last_result-append sent more b ∙ y, z)
then_rest-IsTold (sent, stop none) h (more, e) later (re, a, b, c) k q =
    rw (a, b) (refl, refl, λ x p. let same : re ≡ x = cc in rw (← same) c)
then_rest-IsTold (sent, stop (some x)) h rest later t k q = absurd (cc)

pub parse_stream-IsTold :
    (d : Decoder) (lines : List Line) (failure : Option String)
    → (parse_stream d lines failure).1 ≡ none
    → IsTold (parse_stream d lines failure).0 (transcript d lines)
unfolding parse_stream transcript text_parts last_result
parse_stream-IsTold d [] none h = (refl, refl, λ re e. absurd (cc))
parse_stream-IsTold d [] (some failure) h = absurd (cc)
parse_stream-IsTold d (l ∷ lines) failure h =
    then_rest-IsTold (parse_line d l) (heard d l) (parse_stream d lines failure)
      (transcript d lines) (parse_line-Told d l) (parse_stream-IsTold d lines failure) h
