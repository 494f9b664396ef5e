-- ===== src/Claude/Canceller/Escalation.antt =====
-- What Cancel (internal/claude/canceller.go) sends, and when it succeeds.
use claude_ops.Prelude.{
  ℕ, zero, suc, ◌+◌, ◌*◌, ◌/◌, ◌≤◌, ◌<◌, ◌≡◌, inl, inr, refl, Bool, true, false, some, [], ◌∷◌,
  Result, ok, err, is_ok, Error, message, wrap, ltb, arith, ℤ, is_positive, Bool-cases,
}
use claude_ops.Domain.Task.{Time}
use claude_ops.Claude.Canceller.{
  sigterm, sigkill, Answer, delivered, no_such_process, refused, Kernel, pause, Sent, wait, killed,
  after_wait, rounds, terminated, cancel,
}

-- The signal reaches the group, or the group is gone.
abbrev pub is_over : Answer → Bool
is_over (refused e) = false
is_over a = true

module _ (os : Kernel) where
  -- From `now` on, each probe finds the group, up to the first time at or after the deadline, `end`.
  pub data StillThere (deadline : Time) : Time → Time → Type 0 where
    passed : (now : Time) → deadline ≤ now → StillThere deadline now now
    probed :
        (now end : Time)
        → now < deadline
        → os.exists (os.wake now pause) ≡ true
        → StillThere deadline (os.wake now pause) end
        → StillThere deadline now end

  -- How the loop ends: a probe finds that the group is gone, or none does.
  abbrev Waited : Time → Time → Bool × Time → Type 0
  Waited deadline now (true, t) = (now ≤ t) × (os.exists t ≡ false)
  Waited deadline now (false, t) = (deadline ≤ t) × StillThere deadline now t

  Waited-later :
      (deadline now : Time) (p : Bool × Time)
      → now < deadline
      → os.exists (os.wake now pause) ≡ true
      → Waited deadline (os.wake now pause) p
      → Waited deadline now p
  Waited-later deadline now (true, t) lt there w = (omega (arith, os.wake-le now pause, w.0), w.1)
  Waited-later deadline now (false, t) lt there w = (w.0, probed now t lt there w.1)

  wait-Waited :
      (n : ℕ) (deadline now : Time)
      → deadline ≤ now + n * pause
      → (p : Bool × Time) × (wait os (suc n) deadline now ≡ some p) × Waited deadline now p
  unfolding wait
  wait-Waited zero deadline now h =
      ((false, now), ground arith, (omega arith, passed now (omega arith)))
  wait-Waited (suc n) deadline now h =
      let awake = os.wake now pause in
      elim (Bool-cases (ltb now deadline)) [
        | inr e ↦ ((false, now), rw e refl, (ground arith, passed now (ground arith)))
        | inl e ↦ elim (Bool-cases (os.exists awake)) [
          | inr f ↦ ((true, awake), rw (e, f) refl, (omega (arith, os.wake-le now pause), f))
          | inl f ↦
              let (p, g, w) =
                wait-Waited n deadline awake (omega (arith, h, os.wake-le now pause)) in
              (p, rw (e, f) g, Waited-later deadline now p (ground arith) f w)
        ]
      ]

  -- The ways in which Cancel ends, with what it sent, newest first.
  pub data Outcome (grace : ℕ) (pgid : ℤ) (now : Time) : Result (Unit {0}) × Sent → Type 0 where
    invalid : (e : Error) → is_positive pgid ≡ false → Outcome grace pgid now (err e, [])
    not_there :
        is_positive pgid ≡ true
        → os.kill now sigterm ≡ no_such_process
        → Outcome grace pgid now (ok tt, (now, sigterm) ∷ [])
    not_permitted :
        (e : Error)
        → is_positive pgid ≡ true
        → os.kill now sigterm ≡ refused e
        → Outcome grace pgid now (err (wrap "SIGTERM" e), (now, sigterm) ∷ [])
    left :
        (t : Time)
        → is_positive pgid ≡ true
        → os.kill now sigterm ≡ delivered
        → now ≤ t
        → os.exists t ≡ false
        → Outcome grace pgid now (ok tt, (now, sigterm) ∷ [])
    overdue :
        (t : Time) (r : Result (Unit {0}))
        → is_positive pgid ≡ true
        → os.kill now sigterm ≡ delivered
        → now + grace ≤ t
        → StillThere (now + grace) now t
        → is_ok r ≡ is_over (os.kill t sigkill)
        → Outcome grace pgid now (r, (t, sigkill) ∷ (now, sigterm) ∷ [])

  killed-is_over : (a : Answer) → is_ok (killed os a) ≡ is_over a
  unfolding killed
  killed-is_over delivered = refl
  killed-is_over no_such_process = refl
  killed-is_over (refused e) = refl

  Waited-Outcome :
      (grace : ℕ) (pgid : ℤ) (now : Time) (p : Bool × Time)
      → is_positive pgid ≡ true
      → os.kill now sigterm ≡ delivered
      → wait os (rounds os grace) (now + grace) now ≡ some p
      → Waited (now + grace) now p
      → (q : Result (Unit {0}) × Sent) × (terminated os grace now delivered ≡ some q)
        × Outcome grace pgid now q
  unfolding terminated after_wait
  Waited-Outcome grace pgid now (true, t) pos term e w =
      ((ok tt, (now, sigterm) ∷ []), rw e refl, left t pos term w.0 w.1)
  Waited-Outcome grace pgid now (false, t) pos term e w =
      let r = killed os (os.kill t sigkill) in
      (
        (r, (t, sigkill) ∷ (now, sigterm) ∷ []),
        rw e refl,
        overdue t r pos term w.0 w.1 (killed-is_over (os.kill t sigkill)),
      )

  terminated-Outcome :
      (grace : ℕ) (pgid : ℤ) (now : Time) (a : Answer)
      → is_positive pgid ≡ true
      → os.kill now sigterm ≡ a
      → (q : Result (Unit {0}) × Sent) × (terminated os grace now a ≡ some q)
        × Outcome grace pgid now q
  unfolding terminated
  terminated-Outcome grace pgid now no_such_process pos e =
      ((ok tt, (now, sigterm) ∷ []), refl, not_there pos e)
  terminated-Outcome grace pgid now (refused x) pos e =
      ((err (wrap "SIGTERM" x), (now, sigterm) ∷ []), refl, not_permitted x pos e)
  terminated-Outcome grace pgid now delivered pos e =
      let (p, f, w) = wait-Waited (grace / pause + 1) (now + grace) now (omega arith) in
      Waited-Outcome grace pgid now p pos e f w

  -- Cancel ends, and in one of these ways: nothing is sent to an id that is not positive. Else SIGTERM is
  -- sent, and Cancel succeeds where there is no such group, or a later probe finds none; where each probe
  -- up to the end of the time of grace finds the group, SIGKILL is sent too, not before that end, and
  -- Cancel succeeds unless that is refused; and it fails where SIGTERM is refused.
  pub cancel-Outcome :
      (grace : ℕ) (pgid : ℤ) (now : Time)
      → (q : Result (Unit {0}) × Sent) × (cancel os grace pgid now ≡ some q)
        × Outcome grace pgid now q
  unfolding cancel
  cancel-Outcome grace pgid now = elim (Bool-cases (is_positive pgid)) [
    | inl e ↦
        let (q, f, o) = terminated-Outcome grace pgid now (os.kill now sigterm) e refl in
        (q, rw e f, o)
    | inr e ↦ ((err (message "invalid pgid"), []), rw e refl, invalid (message "invalid pgid") e)
  ]
