-- ===== src/Usecase/Mode/Seen.antt =====
-- What SetFullMode of internal/usecase/mode_usecase.go leaves for its three readers: GetFullMode, the
-- isFullMode of internal/usecase/task_usecase.go and that of internal/scheduler/scheduler.go.
use Prim.Native.String
use Prim.Native.String.append
use text.Mathlib.Text.{starts_with}
use text.Mathlib.TextPositions.{starts_with-append}
use claude_ops.Prelude.{
  String, ◌≡◌, refl, sym, inl, inr, Bool, true, false, Option, none, some, ok, is_ok, arith,
  Result-cases,
}
use claude_ops.Domain.Task.{Time}
use claude_ops.Scheduler.Tick.{contains_true}
use claude_ops.Scheduler.Tick
use claude_ops.Usecase.AppState.{AppState, JsonCodec, value_of}
use claude_ops.Usecase.Tasks
use claude_ops.Usecase.Mode.{
  FullModeState, ModeUseCase, full_mode_key, get_full_mode, read_full_mode, set_full_mode,
  set_state, store_full_mode,
}

-- The texts that the column has for what encoding/json writes for FullModeState, with `since` left out where
-- it is nil, and of a time that encoding/json can write. MySQL puts a blank after each colon and comma; what
-- stands before and after the value of `enabled` depends on its order of the keys.
pub record WritesMode (json : JsonCodec FullModeState) : Type 0 where
  pub before : Time → String
  pub rest : Time → String
  pub marshal-enabled :
      (t : Time) (text : String)
      → json.marshal (set_state true t) ≡ ok text
      → text ≡ String.◌++◌ (before t) (String.◌++◌ "true" (rest t))
  pub marshal-disabled :
      (t : Time) (text : String)
      → json.marshal (set_state false t) ≡ ok text
      → text ≡ "{\"enabled\": false}"

contains_true_at_start : (s : String) → starts_with s "true" ≡ true → contains_true s ≡ true
unfolding contains_true
contains_true_at_start String.[] h = h
contains_true_at_start (String.◌∷◌ c s) h = rw h

-- A text that holds "true" somewhere.
pub contains_true-append :
    (u v : String) → contains_true (String.◌++◌ u (String.◌++◌ "true" v)) ≡ true
unfolding contains_true
contains_true-append String.[] v =
    rw (append.nil (String.◌++◌ "true" v))
      (contains_true_at_start (String.◌++◌ "true" v) (starts_with-append "true" v))
contains_true-append (String.◌∷◌ c u) v =
    rw (append.cons c u (String.◌++◌ "true" v), contains_true-append u v) (ground (arith))

disabled_text : contains_true "{\"enabled\": false}" ≡ false
unfolding contains_true
disabled_text = refl

abbrev pub enabled_of : Option FullModeState → Option Bool
enabled_of none = none
enabled_of (some fs) = some fs.enabled

ok_inj : {x y : String} → ok x ≡ ok y → x ≡ y
ok_inj h = cc

module _ {S : Type 0} (uc : ModeUseCase S) where
  open uc use {repo, json}

  -- What is under the key after a call that succeeds.
  stored :
      (enabled : Bool) (s : S)
      → is_ok (set_full_mode uc enabled s).0 ≡ true
      → (text : String) × ((set_full_mode uc enabled s).0
          ≡ ok (set_state enabled (repo.time_now s)))
        × (json.marshal (set_state enabled (repo.time_now s)) ≡ ok text)
        × (value_of (repo.get full_mode_key (set_full_mode uc enabled s).1) ≡ ok text)
  unfolding set_full_mode store_full_mode
  stored enabled s h =
      let now = repo.time_now s in
      elim (Result-cases (json.marshal (set_state enabled now))) [
        | inl (text, e) ↦
            let a : AppState = record {
              key = full_mode_key;
              value_json = text;
              updated_at = now;
            } in
            (text, ground (arith), e, ground (arith, repo.get-set a s full_mode_key))
        | inr (x, e) ↦ absurd (ground arith)
      ]

  module _ (writes : WritesMode json) (env : Tasks.Env)
      (decodes : (text : String) → env.enabled text ≡ enabled_of (json.unmarshal text)) where
    open writes use {marshal-enabled, marshal-disabled, before, rest}

    -- The textual test of the scheduler on a text that SetFullMode writes.
    contains_true-marshal :
        (enabled : Bool) (now : Time) (text : String)
        → json.marshal (set_state enabled now) ≡ ok text
        → contains_true text ≡ enabled
    contains_true-marshal true now text e =
        rw (marshal-enabled now text e, contains_true-append (before now) (rest now)) refl
    contains_true-marshal false now text e = rw (marshal-disabled now text e, disabled_text) refl

    -- After SetFullMode succeeds, GetFullMode returns the state that it returned, and the tests of the
    -- mode by the task use case and by the scheduler answer what was set, where the
    -- column's text of an enabled state holds true, that of a disabled one is the text with that field
    -- alone, and the task use case decodes with encoding/json.
    pub set_full_mode-seen :
        (enabled : Bool) (s : S)
        → is_ok (set_full_mode uc enabled s).0 ≡ true
        → (let after = (set_full_mode uc enabled s).1 in
            let value = some (value_of (repo.get full_mode_key after)) in
            (get_full_mode uc after ≡ (set_full_mode uc enabled s).0)
            × (Tasks.is_full_mode env value ≡ ok enabled)
            × (Tick.is_full_mode value ≡ enabled))
    unfolding get_full_mode read_full_mode Tasks.is_full_mode Tick.is_full_mode
    set_full_mode-seen enabled s h =
        let now = repo.time_now s in
        let (text, result, e, value) = stored enabled s h in
        let back = json.unmarshal-marshal (set_state enabled now) text e in
        (
          rw (value, back) (sym result),
          rw (value, decodes text, back) refl,
          rw value (contains_true-marshal enabled now text e),
        )
