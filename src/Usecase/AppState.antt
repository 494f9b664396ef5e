-- ===== src/Usecase/AppState.antt =====
-- The store of application state (domain.AppStateRepository of internal/domain/repository.go) as the
-- interface that the use cases are given, and encoding/json for one type: parameters of the model.
use claude_ops.Prelude.{
  String, ◌≡◌, true, false, Option, some, Result, ok, err, is_ok, if◌then◌else◌, str_eq,
}
use claude_ops.Domain.Task.{Time}

-- `value_json` is a text as its column, of MySQL's type JSON, gives it: the column keeps a value, and writes
-- it in one form only.
pub record AppState : Type 0 where
  pub key : String
  pub value_json : String
  pub updated_at : Time

abbrev pub value_of : Result AppState → Result String
value_of (ok state) = ok state.value_json
value_of (err e) = err e

-- `S` is the state of the store and of its connection. Any call may fail; a failed write writes
-- nothing, and a value written is the value read next, in the form of the column.
pub record AppStateRepository (S : Type 0) : Type 0 where
  pub get : String → S → Result AppState
  pub set : AppState → S → Result (Unit {0}) × S
  -- time.Now() as the use case reads it for `updated_at`
  pub time_now : S → Time
  pub get-set :
      (a : AppState) (s : S) (k : String)
      → is_ok (set a s).0 ≡ true
      → value_of (get k (set a s).1)
        ≡ (if str_eq a.key k then ok a.value_json else value_of (get k s))
  pub get-set_failed :
      (a : AppState) (s : S) (k : String)
      → is_ok (set a s).0 ≡ false
      → value_of (get k (set a s).1) ≡ value_of (get k s)

-- json.Marshal and json.Unmarshal of a struct. `marshal` gives the form that the column has for the text of
-- json.Marshal, which names the same value but has its own order of keys and its own spaces; an error is
-- one of json.Marshal. `none` is a text that does not decode.
pub record JsonCodec (A : Type 0) : Type 0 where
  pub marshal : A → Result String
  pub unmarshal : String → Option A
  pub unmarshal-marshal : (a : A) (text : String) → marshal a ≡ ok text → unmarshal text ≡ some a
