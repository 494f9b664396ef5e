-- ===== src/Github/Webhook/Retry.antt =====
-- internal/github/webhook_handler.go: the answer that asks GitHub to send a delivery again.
use claude_ops.Prelude.{
  ℕ, ◌+◌, ◌<◌, ◌≡◌, refl, sym, ap, subst, ◌∙◌, Bool, true, false, not, ◌&&◌, ◌||◌, Option, none,
  some, List, arith, str_eq,
}
use claude_ops.Usecase.Tasks.{RepoConfig, Env}
use claude_ops.Github.Dedup.{
  Deliveries, check_and_add, check_and_add-duplicate, run, AllBefore, Event,
}
use claude_ops.Github.Webhook.{
  Payload, Request, Response, internal_error, answered, State, after_enqueue, enqueue, with_repo,
  handle_payload, after_dedup, handle_webhook, duplicate, find_repo_cfg,
}

enqueue-seen :
    (env : Env) (b : Bool) (p : Payload) (s : State) → (enqueue env b p s).1.seen ≡ s.seen
unfolding enqueue after_enqueue
enqueue-seen env b p s = ground arith

with_repo-seen :
    (env : Env) (b : Bool) (p : Payload) (o : Option RepoConfig) (s : State)
    → (with_repo env b p o s).1.seen ≡ s.seen
unfolding with_repo
with_repo-seen env b p none s = refl
with_repo-seen env b p (some r) s = ground (arith, enqueue-seen env b p s)

handle_payload-seen :
    (env : Env) (b : Bool) (o : Option Payload) (s : State)
    → (handle_payload env b o s).1.seen ≡ s.seen
unfolding handle_payload
handle_payload-seen env b none s = refl
handle_payload-seen env b (some p) s =
    ground (arith, with_repo-seen env b p (find_repo_cfg env.repos p.repo_full_name) s)

-- The headers let the request through to the cache of deliveries.
reaches : Request → Bool
reaches r =
    not (not r.readable || str_eq r.event "" || str_eq r.delivery "")
    && not (str_eq r.signature "" || not r.verified)
    && not (str_eq r.event "ping")
    && str_eq r.event "issues"

handle_webhook-reaches :
    (ttl : ℕ) (env : Env) (b : Bool) (r : Request) (s : State)
    → reaches r ≡ true
    → handle_webhook ttl env b r s
      ≡ after_dedup env b r (check_and_add ttl env.now r.delivery s.seen) s
unfolding handle_webhook reaches
handle_webhook-reaches ttl env b r s h = ground arith

internal_error-reaches :
    (ttl : ℕ) (env : Env) (b : Bool) (r : Request) (s : State)
    → (handle_webhook ttl env b r s).0 ≡ internal_error
    → reaches r ≡ true
unfolding handle_webhook reaches
internal_error-reaches ttl env b r s h = ground arith

after_dedup-accepted :
    (env : Env) (b : Bool) (r : Request) (d : Bool × Deliveries) (s : State)
    → (after_dedup env b r d s).0 ≡ internal_error
    → (d.0 ≡ true) × ((after_dedup env b r d s).1.seen ≡ d.1)
unfolding after_dedup
after_dedup-accepted env b r (false, seen) s h = absurd (cc)
after_dedup-accepted env b r (true, seen) s h =
    (refl, handle_payload-seen env b r.payload (record s { seen = seen }))

after_dedup-refused :
    (env : Env) (b : Bool) (r : Request) (d : Bool × Deliveries) (s : State)
    → d.0 ≡ false
    → after_dedup env b r d s ≡ (answered duplicate, record s { seen = d.1 })
unfolding after_dedup
after_dedup-refused env b r (false, seen) s h = refl
after_dedup-refused env b r (true, seen) s h = absurd (cc)

-- A delivery that was answered with an internal error, so that it is sent again, is answered as a
-- duplicate and enqueues nothing when it comes again within the time to live, whatever other
-- deliveries were checked meanwhile.
pub handle_webhook-retry_lost :
    (ttl : ℕ) (env later : Env) (b c : Bool) (r : Request) (s : State) (es : List Event)
    → (handle_webhook ttl env b r s).0 ≡ internal_error
    → AllBefore (env.now + ttl) es
    → later.now < env.now + ttl
    → (after : State) → after.seen ≡ run ttl es (handle_webhook ttl env b r s).1.seen
    → ((handle_webhook ttl later c r after).0 ≡ answered duplicate)
      × ((handle_webhook ttl later c r after).1.tasks ≡ after.tasks)
handle_webhook-retry_lost ttl env later b c r s es failed bs soon after seen =
    let through = internal_error-reaches ttl env b r s failed in
    let first = handle_webhook-reaches ttl env b r s through in
    let checked = check_and_add ttl env.now r.delivery s.seen in
    let (accepted, kept) =
      after_dedup-accepted env b r checked s
        (ap (λ (x : Response × State). x.0) (sym first) ∙ failed) in
    let seen_then : after.seen ≡ run ttl es checked.1 =
      seen
      ∙ ap (λ (d : Deliveries). run ttl es d)
          (ap (λ (x : Response × State). x.1.seen) first ∙ kept) in
    let refused =
      check_and_add-duplicate ttl env.now r.delivery s.seen es later.now accepted bs soon in
    let refused_now : (check_and_add ttl later.now r.delivery after.seen).0 ≡ false =
      subst (λ (d : Deliveries). (check_and_add ttl later.now r.delivery d).0 ≡ false)
        (sym seen_then) refused in
    let second =
      handle_webhook-reaches ttl later c r after through
      ∙ after_dedup-refused later c r (check_and_add ttl later.now r.delivery after.seen) after
          refused_now in
    (ap (λ (x : Response × State). x.0) second, ap (λ (x : Response × State). x.1.tasks) second)
