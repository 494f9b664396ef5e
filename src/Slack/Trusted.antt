-- ===== src/Slack/Trusted.antt =====
-- Which requests of Slack stop a task (internal/api/slack_handler.go).
use claude_ops.Prelude.{
  ◌≤◌, String, ◌≡◌, refl, inl, inr, Bool, true, false, Option, none, some, List, [], ◌∷◌, ℤ, ok,
  arith, any, mem_str, if◌then◌else◌, str_eq, eq_iff, Bool-cases, Option-cases, Result-cases,
}
use claude_ops.Domain.Task.{Time}
use claude_ops.Scheduler.Cancel.{Running, cancel_task}
use claude_ops.Slack.{
  ◌++◌, Packages, Action, Request, age, replay_window, expected, verify_signature, verify_at,
  handle_actions, handle_interaction, handle_decoded, handle_form, handle_interactions,
  handle_verified, handle_body, trim_task, stop_task, cancelled_one,
}

module _ (go : Packages) where
  -- A signature made under the secret for this body and time, which is at most five minutes away.
  pub record IsTrusted (now : Time) (secret : String) (r : Request go) (body : String)
      : Type 0 where
    pub seconds : ℤ
    pub parsed : go.parse_int r.timestamp ≡ some seconds
    pub recent : age now seconds ≤ replay_window
    pub signed : r.signature ≡ "v0=" ++ go.mac secret ("v0:" ++ r.timestamp ++ ":" ++ body)

  -- An action that asks for the task of that id to stop.
  abbrev pub asks : String → Action → Bool
  asks id a = if str_eq a.action_id stop_task then str_eq (trim_task a.value) id else false

  verify_signature-IsTrusted :
      (now : Time) (secret : String) (r : Request go) (body : String) (u : Unit {0})
      → verify_signature go now r.timestamp r.signature body secret ≡ ok u
      → IsTrusted now secret r body
  unfolding verify_signature verify_at
  verify_signature-IsTrusted now secret r body u h =
      elim (Option-cases (go.parse_int r.timestamp)) [
        | inl e ↦ absurd (ground arith)
        | inr (ts, e) ↦ record {
          seconds = ts;
          parsed = e;
          recent = ground arith;
          signed = ground (arith, eq_iff (expected go r.timestamp body secret) r.signature);
        }
      ]

  -- A task that the actions cancelled was running, and one of them asks for it.
  handle_actions-asked :
      (actions : List Action) (s : Running) (id : String)
      → mem_str id s.cancelled ≡ false
      → mem_str id (handle_actions go actions s).1.cancelled ≡ true
      → (any (asks id) actions ≡ true) × (mem_str id s.cancel_map ≡ true)
  unfolding handle_actions cancelled_one cancel_task
  handle_actions-asked [] s id old new = cc
  handle_actions-asked (a ∷ more) s id old new =
      let stopped : Running = record s { cancelled = trim_task a.value ∷ s.cancelled } in
      ground (
        arith,
        eq_iff (trim_task a.value) id,
        handle_actions-asked more s id,
        handle_actions-asked more stopped id,
      )

  -- What a request that stops a task shows: it is trusted, and an action of its payload asks for the
  -- task, which was running.
  abbrev pub Asked : Time → String → Request go → Running → String → Type 0
  Asked now secret r s id =
      (body : String) × (payload : String) × (actions : List Action) × (r.body ≡ some body)
      × IsTrusted now secret r body
      × (go.payload body ≡ some payload)
      × (go.actions payload ≡ some actions)
      × (any (asks id) actions ≡ true)
      × (mem_str id s.cancel_map ≡ true)

  form_asked :
      (o : Option String) (s : Running) (id : String)
      → mem_str id s.cancelled ≡ false
      → mem_str id (handle_form go o s).1.cancelled ≡ true
      → (payload : String) × (actions : List Action) × (o ≡ some payload)
        × (go.actions payload ≡ some actions)
        × (any (asks id) actions ≡ true)
        × (mem_str id s.cancel_map ≡ true)
  unfolding handle_form handle_interaction handle_decoded
  form_asked none s id old new = absurd (ground arith)
  form_asked (some payload) s id old new = elim (Bool-cases (str_eq payload "")) [
    | inl e ↦ absurd (ground arith)
    | inr e ↦ elim (Option-cases (go.actions payload)) [
      | inl f ↦ absurd (ground arith)
      | inr (actions, f) ↦
          let found = handle_actions-asked actions s id old (ground arith) in
          (payload, actions, refl, f, found.0, found.1)
    ]
  ]

  -- A task that a request newly stops was running, and the request asked for it: its signature is the
  -- one of its timestamp and its body under the secret, its timestamp is within the replay window of the
  -- clock, and a stop action of its payload names the task.
  pub handle_interactions-Asked :
      (now : Time) (secret : String) (r : Request go) (s : Running) (id : String)
      → mem_str id s.cancelled ≡ false
      → mem_str id (handle_interactions go now secret r s).1.cancelled ≡ true
      → Asked now secret r s id
  unfolding handle_interactions handle_body handle_verified
  handle_interactions-Asked now secret r s id old new = elim (Option-cases r.body) [
    | inl e ↦ absurd (ground arith)
    | inr (body, e) ↦
        elim (Result-cases (verify_signature go now r.timestamp r.signature body secret)) [
          | inl (u, f) ↦
              let (payload, actions, g, h, i, j) =
                form_asked (go.payload body) s id old (ground arith) in
              (
                body,
                payload,
                actions,
                e,
                verify_signature-IsTrusted now secret r body u f,
                g,
                h,
                i,
                j,
              )
          | inr (x, f) ↦ absurd (ground arith)
        ]
  ]
