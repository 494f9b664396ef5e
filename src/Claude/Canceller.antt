-- ===== src/Claude/Canceller.antt =====
-- internal/claude/canceller.go: a process group gets SIGTERM, and SIGKILL where it is still there when
-- the time of grace has passed.
pub mod Escalation
use claude_ops.Prelude.{
  ℕ, zero, suc, ◌+◌, ◌*◌, ◌/◌, ◌≤◌, Bool, true, false, Option, none, some, List, [], ◌∷◌, Result,
  ok, err, Error, message, wrap, ltb, if◌then◌else◌, ℤ, is_positive, not,
}
use claude_ops.Domain.Task.{Time}

pub data Signal : Type 0 where
  sigterm sigkill : Signal

-- What kill(2) answers: the signal is delivered, or there is no such group, or another error.
pub data Answer : Type 0 where
  delivered no_such_process : Answer
  refused : Error → Answer

-- The operating system, whose clock moves in sleeps only: the answer to a signal sent at a time, whether signal 0 reaches the group at a
-- time, and when a sleep of some length that starts at a time ends, which is not too early.
pub record Kernel : Type 0 where
  pub kill : Time → Signal → Answer
  pub exists : Time → Bool
  pub wake : Time → ℕ → Time
  pub wake-le : (now length : ℕ) → now + length ≤ wake now length

-- the pause between two probes, 200 ms
abbrev pub pause : ℕ
pause = 200 * 1000000

-- the grace of NewProcessCanceller, 5 s
abbrev pub default_grace : ℕ
default_grace = 5 * 1000000000

-- The signals sent, with their times, newest first.
abbrev pub Sent : Type 0
Sent = List (Time × Signal)

module _ (os : Kernel) where
  -- The loop: whether the group was seen gone before the deadline, and the time; `none` is that the fuel
  -- ran out.
  unfoldable pub wait : ℕ → Time → Time → Option (Bool × Time)
  wait zero deadline now = none
  wait (suc n) deadline now =
      let awake = os.wake now pause in
      let rest = wait n deadline awake in
      if not (ltb now deadline)
      then some (false, now)
      else if not (os.exists awake)
      then some (true, awake)
      else rest

  killed : Answer → Result (Unit {0})
  killed delivered = ok tt
  killed no_such_process = ok tt
  killed (refused e) = err (wrap "SIGKILL" e)

  after_wait : Time → Option (Bool × Time) → Option (Result (Unit {0}) × Sent)
  after_wait start none = none
  after_wait start (some (true, now)) = some (ok tt, (start, sigterm) ∷ [])
  after_wait start (some (false, now)) =
      some (killed (os.kill now sigkill), (now, sigkill) ∷ (start, sigterm) ∷ [])

  -- the most probes that fit in the time of grace, and one round more
  abbrev pub rounds : ℕ → ℕ
  rounds grace = suc (grace / pause + 1)

  terminated : ℕ → Time → Answer → Option (Result (Unit {0}) × Sent)
  unfolding after_wait
  terminated grace now delivered = after_wait now (wait (rounds grace) (now + grace) now)
  terminated grace now no_such_process = some (ok tt, (now, sigterm) ∷ [])
  terminated grace now (refused e) = some (err (wrap "SIGTERM" e), (now, sigterm) ∷ [])

  -- Cancel: its result, and what it sent
  unfoldable pub cancel : ℕ → ℤ → Time → Option (Result (Unit {0}) × Sent)
  unfolding terminated killed
  cancel grace pgid now =
      if is_positive pgid
      then terminated grace now (os.kill now sigterm)
      else some (err (message "invalid pgid"), [])
