-- ===== src/Usecase/Mode.antt =====
-- internal/usecase/mode_usecase.go: the full mode, kept under one key of the store of state.
pub mod Seen
use claude_ops.Prelude.{
  String, Bool, true, false, Option, none, some, Result, ok, err, Error, not_found, wrap,
  if◌then◌else◌,
}
use claude_ops.Prelude.Exec.{Exec}
use claude_ops.Domain.Task.{Time}
use claude_ops.Usecase.AppState.{AppState, AppStateRepository, JsonCodec, value_of}

pub record FullModeState : Type 0 where
  pub enabled : Bool
  pub since : Option Time

abbrev pub full_mode_key : String
full_mode_key = "full_mode"

pub record ModeUseCase (S : Type 0) : Type 0 where
  pub repo : AppStateRepository S
  pub json : JsonCodec FullModeState

abbrev pub disabled : FullModeState
disabled = record { enabled = false; since = none }

-- the state that SetFullMode makes
abbrev pub set_state : Bool → Time → FullModeState
set_state enabled now = record { enabled = enabled; since = if enabled then some now else none }

abbrev decoded : Option FullModeState → FullModeState
decoded none = disabled
decoded (some fs) = fs

module _ {S : Type 0} (uc : ModeUseCase S) where
  open uc use {repo, json}

  -- GetFullMode, from what the store answers: `err == domain.ErrNotFound` does not look into wrappings
  unfoldable pub read_full_mode : Result String → Result FullModeState
  read_full_mode (err not_found) = ok disabled
  read_full_mode (err e) = err (wrap "get full_mode" e)
  read_full_mode (ok value_json) = ok (decoded (json.unmarshal value_json))

  unfoldable pub get_full_mode : S → Result FullModeState
  get_full_mode s = read_full_mode (value_of (repo.get full_mode_key s))

  saved : FullModeState → Result (Unit {0}) × S → Result FullModeState × S
  saved fs (ok u, s) = (ok fs, s)
  saved fs (err e, s) = (err (wrap "set full_mode" e), s)

  unfoldable pub store_full_mode : FullModeState → Time → Result String → Exec S FullModeState
  unfolding saved
  store_full_mode fs now (err e) s = (err (wrap "marshal full_mode" e), s)
  store_full_mode fs now (ok text) s =
      let state : AppState = record { key = full_mode_key; value_json = text; updated_at = now } in
      saved fs (repo.set state s)

  -- SetFullMode
  unfoldable pub set_full_mode : Bool → Exec S FullModeState
  set_full_mode enabled s =
      let fs = set_state enabled (repo.time_now s) in
      store_full_mode fs (repo.time_now s) (json.marshal fs) s
