-- ===== src/Prelude/Text/Parse.antt =====
-- Python's `int` of a text: white space around it, a sign, decimal digits with single underscores
-- between them. Only ASCII digits and white space are read.
use Prim.Native.Nat.{ℕ, ◌+◌, ◌-◌, ◌*◌}
use Prim.Native.Char.{code}
use Prim.Native.String.{String}
use mathlib.Core.Path.{◌≡◌, refl}
use mathlib.Core.Bool.{Bool, true, false, ◌&&◌, ◌||◌}
use mathlib.Core.Option.{Option, none, some}
use ca1_health_monitor.Prelude.Tests.{leb, if◌then◌else◌}
use ca1_health_monitor.Prelude.Int.{ℤ, pos, negsuc, sub_ℕ}
use ca1_health_monitor.Prelude.Text.{same}

-- space, tab, line feed, vertical tab, form feed, return and the four separators
unfoldable pub is_space : ℕ → Bool
is_space c = same c 32 || leb 9 c && leb c 13 || leb 28 c && leb c 31

unfoldable pub is_digit : ℕ → Bool
is_digit c = leb 48 c && leb c 57

-- `s.lstrip()` and `s.rstrip()`
unfoldable pub strip_left : String → String
unfolding is_space
strip_left String.[] = ""
strip_left (String.◌∷◌ c s) = if is_space (code c) then strip_left s else String.◌∷◌ c s

unfoldable pub strip_right : String → String
unfolding is_space
strip_right String.[] = ""
strip_right (String.◌∷◌ c s) = elim (strip_right s) [
  | String.[] ↦ if is_space (code c) then "" else String.◌∷◌ c ""
  | String.◌∷◌ d t ↦ String.◌∷◌ c (String.◌∷◌ d t)
]

-- `s.strip()`
unfoldable pub strip : String → String
unfolding strip_left strip_right
strip s = strip_right (strip_left s)

-- The digits that are left, the number so far, and whether the last character was a digit.
unfoldable pub decimal : Bool → ℕ → String → Option ℕ
unfolding is_digit
decimal after_digit n String.[] = if after_digit then some n else none
decimal after_digit n (String.◌∷◌ c s) =
    let c' = code c in
    let rest = decimal true (n * 10 + (c' - 48)) s in
    let gap = decimal false n s in
    if is_digit c' then rest else if after_digit && same c' b'_' then gap else none

signed : Bool → Option ℕ → Option ℤ
signed negative none = none
signed negative (some n) = some (if negative then sub_ℕ 0 n else sub_ℕ n 0)

unfoldable pub signed_text : String → Option ℤ
unfolding decimal signed
signed_text String.[] = none
signed_text (String.◌∷◌ c s) =
    if same (code c) b'-'
    then signed true (decimal false 0 s)
    else if same (code c) b'+'
    then signed false (decimal false 0 s)
    else signed false (decimal false 0 (String.◌∷◌ c s))

-- `int(s)`; `none` stands for the `ValueError`.
unfoldable pub parse_int : String → Option ℤ
unfolding strip signed_text
parse_int s = signed_text (strip s)

parses :
    (parse_int " 42 " ≡ some (pos 42))
    × (parse_int "-1_000" ≡ some (negsuc 999))
    × (parse_int "4.0" ≡ none)
    × (parse_int "_1" ≡ none)
    × (parse_int "" ≡ none)
unfolding parse_int
parses = (refl, refl, refl, refl, refl)
