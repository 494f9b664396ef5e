-- ===== src/Prelude/Lines.antt =====
-- Go's strings.Split, strings.TrimRight and strings.Join at newlines, and the end of a list of lines.
use Prim.Native.String
use Prim.Native.String.{String}
use Prim.Native.Char.{code}
use Prim.Native.Nat.{ℕ}
use mathlib.Core.Bool.{◌&&◌}
use mathlib.Core.List.{List, [], ◌∷◌}
use text.Mathlib.Text.{◌==◌ as str_eq}
use claude_ops.Prelude.Tests.{◌==◌, if◌then◌else◌}

abbrev newline : ℕ
newline = 10

-- strings.Split(s, "\n")
unfoldable pub split_from : String → String → List String
split_from cur String.[] = cur ∷ []
split_from cur (String.◌∷◌ c s) =
    let closed = cur ∷ split_from "" s in
    let longer = split_from (String.◌++◌ cur (String.◌∷◌ c String.[])) s in
    if code c == newline then closed else longer

-- strings.TrimRight(s, "\n")
unfoldable pub trim_right : String → String
trim_right String.[] = String.[]
trim_right (String.◌∷◌ c s) =
    let rest = trim_right s in
    if code c == newline && str_eq rest "" then String.[] else String.◌∷◌ c rest

-- strings.Join(lines, "\n")
unfoldable pub join : List String → String
join [] = ""
join (l ∷ []) = l
join (l ∷ m ∷ more) = String.◌++◌ l (String.◌++◌ "\n" (join (m ∷ more)))
