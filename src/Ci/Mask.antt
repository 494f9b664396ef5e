-- ===== src/Ci/Mask.antt =====
-- TruncateLogTail and itoa of internal/ci/mask.go. The regular expressions of MaskSecrets are not
-- modelled.
pub mod Truncated
use Prim.Native.Char.{Char, char}
use Prim.Native.String
use claude_ops.Prelude.{
  ℕ, zero, suc, ◌+◌, ◌-◌, ◌/◌, ◌%◌, ◌^◌, String, Option, none, some, List, [], ◌∷◌, ℤ, pos, negsuc,
  length, drop, leb, ◌==◌, if◌then◌else◌,
}
use claude_ops.Prelude.Lines.{split_from, join}

-- byte('0' + d), for a digit
abbrev pub digit : ℕ → Char
digit zero = char 48 tt
digit (suc zero) = char 49 tt
digit (suc (suc zero)) = char 50 tt
digit (suc (suc (suc zero))) = char 51 tt
digit (suc (suc (suc (suc zero)))) = char 52 tt
digit (suc (suc (suc (suc (suc zero))))) = char 53 tt
digit (suc (suc (suc (suc (suc (suc zero)))))) = char 54 tt
digit (suc (suc (suc (suc (suc (suc (suc zero))))))) = char 55 tt
digit (suc (suc (suc (suc (suc (suc (suc (suc zero)))))))) = char 56 tt
digit d = char 57 tt

abbrev pub minus : Char
minus = char 45 tt

-- The loop of itoa on a number that is not negative, with the buffer free below index i and filled with
-- `s` from there on; `none` is a write below index 0, which panics.
unfoldable pub digits : ℕ → ℕ → String → Option (ℕ × String)
digits zero n s = if n == 0 then some (0, s) else none
digits (suc i) n s =
    let rest = digits i (n / 10) (String.◌∷◌ (digit (n % 10)) s) in
    if n == 0 then some (suc i, s) else rest

-- n, where it is not negative, or -n. The least int stays negative under -n, and the loop passes it by.
abbrev pub magnitude : ℤ → ℕ
magnitude (pos n) = n
magnitude (negsuc n) = if n + 1 == 2 ^ 63 then 0 else n + 1

signed : ℤ → Option (ℕ × String) → Option String
signed n none = none
signed (pos n) (some (i, s)) = some s
signed (negsuc n) (some (zero, s)) = none
signed (negsuc n) (some (suc i, s)) = some (String.◌∷◌ minus s)

-- itoa, with its buffer of 20 bytes
unfoldable pub itoa : ℤ → Option String
unfolding signed
itoa (pos zero) = some "0"
itoa n = signed n (digits 20 (magnitude n) "")

marked : List String → Option String → Option String
marked tail none = none
marked tail (some n) =
    some (String.◌++◌ "[truncated " (String.◌++◌ n (String.◌++◌ " earlier lines]\n" (join tail))))

-- TruncateLogTail; `none` is a panic
unfoldable pub truncate_log_tail : String → ℤ → Option String
unfolding marked
truncate_log_tail s (negsuc n) = some s
truncate_log_tail s (pos n) =
    let lines = split_from "" s in
    let over = length lines - n in
    if n == 0
    then some s
    else if leb (length lines) n
    then some s
    else marked (drop over lines) (itoa (pos over))
