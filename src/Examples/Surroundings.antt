-- ===== src/Examples/Surroundings.antt =====
-- A clock of minutes, a store in memory and codecs for a few values: instances of the parameters.
use Prim.Native.Char.{code}
use Prim.Native.String.{◌∷◌ as char_then, [] as no_text}
use claude_ops.Prelude.{
  ℕ, zero, suc, ◌+◌, ◌/◌, ◌%◌, String, ◌≡◌, refl, ap, Bool, true, ◌&&◌, Option, none, some, ℤ, pos,
  negsuc, eq_ℤ, eq_ℤ_iff, eq_iff, Result, ok, err, message, not_found, arith, str_eq, if◌then◌else◌,
  Bool-cases, inl, inr,
}
use claude_ops.Domain.Calendar.{Calendar}
use claude_ops.Scheduler.BudgetGate.{BudgetCounters, BudgetLimits}
use claude_ops.Usecase.AppState.{AppState, AppStateRepository, JsonCodec, value_of}
use claude_ops.Usecase.Budget.{BudgetUseCase, RateLimitBlockJson, LimitsOverrideJson, counters_eq}

-- A number in unary.
unfoldable pub tally : ℕ → String
tally zero = ""
tally (suc n) = char_then "x" (tally n)

pub tally-injective : (m n : ℕ) → tally m ≡ tally n → m ≡ n
unfolding tally
tally-injective zero zero h = refl
tally-injective zero (suc n) h = absurd (cc)
tally-injective (suc m) zero h = absurd (cc)
tally-injective (suc m) (suc n) h = ap suc (tally-injective m n (cc))

first_code : String → ℕ
first_code no_text = 0
first_code (char_then c s) = code c

unfoldable pub two_tallies : ℕ → ℕ → String
two_tallies zero n = char_then "w" (tally n)
two_tallies (suc m) n = char_then "y" (two_tallies m n)

pub two_tallies-injective : (a b c d : ℕ) → two_tallies a b ≡ two_tallies c d → (a ≡ c) × (b ≡ d)
unfolding two_tallies first_code
two_tallies-injective zero b zero d h = (refl, tally-injective b d (cc))
two_tallies-injective zero b (suc c) d h = absurd (omega (arith, ap first_code h))
two_tallies-injective (suc a) b zero d h = absurd (omega (arith, ap first_code h))
two_tallies-injective (suc a) b (suc c) d h =
    let (x, y) = two_tallies-injective a b c d (cc) in (ap suc x, y)

scan : String → Option (ℤ × ℤ)
scan s =
    if str_eq s "09:00"
    then some (pos 9, pos 0)
    else if str_eq s "18:30"
    then some (pos 18, pos 30)
    else none

-- Minutes since the start of a Monday.
unfoldable pub minutes : Calendar
unfolding scan two_tallies tally
minutes = record {
  Location = Unit {0};
  utc = tt;
  load_location = λ name. some tt;
  day = λ loc t. t / 1440 + 7;
  hour = λ loc t. t / 60 % 24;
  minute = λ loc t. t % 60;
  iso_week = λ d. (0, d / 7);
  format_date = tally;
  format_week = λ (a, b). two_tallies a b;
  scan_hhmm = scan;
  to_lower = λ s. s;
  day_large = λ loc t. omega arith;
  hour-lt = λ loc t. omega arith;
  minute-lt = λ loc t. omega arith;
  iso_week_iff = λ d e. (λ h. ap (λ (x : ℕ × ℕ). x.1) h, λ h. ap (λ (x : ℕ). (0, x)) h);
  format_date-injective = tally-injective;
  format_week-injective = λ (a, b) (c, d) h. let (x, y) = two_tallies-injective a b c d h in cc;
}

-- The values of the keys; every call succeeds.
abbrev pub Memory : Type 0
Memory = String → Option String

read_memory : String → Option String → Result AppState
read_memory k none = err not_found
read_memory k (some text) = ok (record { key = k; value_json = text; updated_at = 0 })

abbrev pub written : AppState → Memory → Memory
written a m k = if str_eq a.key k then some a.value_json else m k

get-written :
    (a : AppState) (m : Memory) (k : String)
    → value_of (read_memory k (written a m k))
      ≡ (if str_eq a.key k then ok a.value_json else value_of (read_memory k (m k)))
unfolding read_memory
get-written a m k = elim (Bool-cases (str_eq a.key k)) [ inl e ↦ rw e refl | inr e ↦ rw e refl ]

unfoldable pub memory : AppStateRepository Memory
unfolding read_memory get-written
memory = record {
  get = λ k m. read_memory k (m k);
  set = λ a m. (ok tt, written a m);
  time_now = λ m. 0;
  get-set = λ a m k h. get-written a m k;
  get-set_failed = λ a m k h. absurd (cc);
}

abbrev pub no_values : Memory
no_values k = none

-- The counters of the first day and week, with no task and with one.
abbrev pub fresh_counters : BudgetCounters
fresh_counters = record {
  daily_count = pos 0;
  daily_key = "xxxxxxx";
  weekly_count = pos 0;
  weekly_key = "wx";
}

abbrev pub one_task : BudgetCounters
one_task = record {
  daily_count = pos 1;
  daily_key = "xxxxxxx";
  weekly_count = pos 1;
  weekly_key = "wx";
}

pub counters_eq-same : (a b : BudgetCounters) → counters_eq a b ≡ true → a ≡ b
unfolding counters_eq
counters_eq-same a b h = ground (
  arith,
  eq_ℤ_iff a.daily_count b.daily_count,
  eq_iff a.daily_key b.daily_key,
  eq_ℤ_iff a.weekly_count b.weekly_count,
  eq_iff a.weekly_key b.weekly_key,
)

counters_text : BudgetCounters → Result String
counters_text n =
    if counters_eq n fresh_counters
    then ok "0"
    else if counters_eq n one_task
    then ok "1"
    else err (message "unsupported value")

counters_value : String → Option BudgetCounters
counters_value text =
    if str_eq text "0" then some fresh_counters else if str_eq text "1" then some one_task else none

counters_value-text :
    (n : BudgetCounters) (text : String) → counters_text n ≡ ok text → counters_value text ≡ some n
unfolding counters_text counters_value
counters_value-text n text h = elim (Bool-cases (counters_eq n fresh_counters)) [
  | inl e ↦
      let zero_text : "0" ≡ text = ground arith in
      rw (← zero_text, counters_eq-same n fresh_counters e) refl
  | inr e ↦ elim (Bool-cases (counters_eq n one_task)) [
    | inl f ↦
        let one_text : "1" ≡ text = ground arith in
        rw (← one_text, counters_eq-same n one_task f) refl
    | inr f ↦ ground arith
  ]
]

-- A codec of one value.
module _ {A : Type 0} (same : A → Bool) (v : A) (sound : (a : A) → same a ≡ true → a ≡ v) where
  only_text : A → Result String
  only_text a = if same a then ok "it" else err (message "unsupported value")

  only_value : String → Option A
  only_value text = if str_eq text "it" then some v else none

  only_value-text : (a : A) (text : String) → only_text a ≡ ok text → only_value text ≡ some a
  unfolding only_text only_value
  only_value-text a text h = elim (Bool-cases (same a)) [
    | inl e ↦ let it : "it" ≡ text = ground arith in rw (← it, sound a e) refl
    | inr e ↦ ground arith
  ]

  unfoldable pub only : JsonCodec A
  unfolding only_text only_value only_value-text
  only = record { marshal = only_text; unmarshal = only_value; unmarshal-marshal = only_value-text }

abbrev pub a_block : RateLimitBlockJson
a_block = record {
  blocked_until_unix = pos 100;
  rate_limit_type = "five_hour";
  observed_at_unix = negsuc 62135596799;
}

is_a_block : RateLimitBlockJson → Bool
is_a_block b =
    eq_ℤ b.blocked_until_unix (pos 100)
    && str_eq b.rate_limit_type "five_hour"
    && eq_ℤ b.observed_at_unix (negsuc 62135596799)

is_a_block-sound : (b : RateLimitBlockJson) → is_a_block b ≡ true → b ≡ a_block
unfolding is_a_block
is_a_block-sound b h = ground (
  arith,
  eq_iff b.rate_limit_type "five_hour",
  eq_ℤ_iff b.blocked_until_unix (pos 100),
  eq_ℤ_iff b.observed_at_unix (negsuc 62135596799),
)

abbrev pub an_override : LimitsOverrideJson
an_override = record { daily_max = pos 5; weekly_max = pos 20 }

is_an_override : LimitsOverrideJson → Bool
is_an_override b = eq_ℤ b.daily_max (pos 5) && eq_ℤ b.weekly_max (pos 20)

is_an_override-sound : (b : LimitsOverrideJson) → is_an_override b ≡ true → b ≡ an_override
unfolding is_an_override
is_an_override-sound b h =
    ground (arith, eq_ℤ_iff b.daily_max (pos 5), eq_ℤ_iff b.weekly_max (pos 20))

-- One task a day and three a week, which starts on a Monday.
abbrev pub one_a_day : BudgetLimits minutes
one_a_day = record { daily_max = pos 1; weekly_max = pos 3; week_starts_on = 1; reset_tz = none }

unfoldable pub budget : BudgetUseCase Memory minutes
unfolding counters_text counters_value counters_value-text is_a_block is_a_block-sound
    is_an_override is_an_override-sound
budget = record {
  repo = memory;
  counters_json = record {
    marshal = counters_text;
    unmarshal = counters_value;
    unmarshal-marshal = counters_value-text;
  };
  block_json = only is_a_block a_block is_a_block-sound;
  override_json = only is_an_override an_override is_an_override-sound;
  config_limits = one_a_day;
}
