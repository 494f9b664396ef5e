-- ===== src/Ci/Mask/Truncated.antt =====
-- What itoa writes, and what TruncateLogTail keeps (internal/ci/mask.go).
use Prim.Native.Char.{Char, code}
use Prim.Native.String
use claude_ops.Prelude.{
  Bool, not, ◌&&◌, sym, true, ℕ, zero, suc, ◌+◌, ◌-◌, ◌*◌, ◌≤◌, ◌≡◌, sym, String, List, ◌++◌,
  length, leb, ◌==◌,
}
use claude_ops.Prelude.Lines.{split_from, join}

-- The number that decimal digits name, after those before them.
abbrev pub value : ℕ → String → ℕ
value n String.[] = n
value n (String.◌∷◌ c s) = value (n * 10 + (code c - 48)) s

abbrev is_digit : Char → Bool
is_digit c = leb 48 (code c) && leb (code c) 57

abbrev all_digits : String → Bool
all_digits String.[] = true
all_digits (String.◌∷◌ c s) = is_digit c && all_digits s

-- The text does not start with the digit 0.
abbrev starts_right : String → Bool
starts_right String.[] = true
starts_right (String.◌∷◌ c s) = not (code c == 48)

-- The text is the decimal of a number that is not 0: digits only, the first of which is not 0.
pub record IsDecimal (n : ℕ) (s : String) : Type 0 where
  pub digits_only : all_digits s ≡ true
  pub no_zero_first : starts_right s ≡ true
  pub named : value 0 s ≡ n

abbrev limit : ℕ → ℕ
limit zero = 1
limit (suc i) = 10 * limit i

-- What the loop makes of a number, before a text that it has written.
record Written (n : ℕ) (s t : String) : Type 0 where
  digits_kept : all_digits s ≡ true → all_digits t ≡ true
  leads : (n ≡ 0 → starts_right s ≡ true) → starts_right t ≡ true
  reads : value 0 t ≡ value n s

-- What is left of a text: all of it, where the bound is 0 or no line is too many; or the marker, with the
-- number of the lines that are left out in decimal, and then the last lines.
pub data Truncated (s : String) (n : ℕ) : String → Type 0 where
  unbounded : n ≡ 0 → Truncated s n s
  whole : length (split_from "" s) ≤ n → Truncated s n s
  cut :
      (front kept : List String) (count : String)
      → split_from "" s ≡ front ++ kept
      → length kept ≡ n
      → IsDecimal (length front) count
      → Truncated s n (
          String.◌++◌ "[truncated "
            (String.◌++◌ count (String.◌++◌ " earlier lines]\n" (join kept))))
