-- ===== src/Prelude/Text/Number.antt =====
-- Python's `float` of a text, as a number of millionths: a text with more digits than that is rounded
-- to the nearest, a half to the even one. Only ASCII digits and white space are read.
use Prim.Native.Nat.{ℕ, suc, ◌+◌, ◌*◌, ◌-◌, ◌^◌}
use Prim.Native.Char.{code}
use Prim.Native.String.{String}
use mathlib.Core.Path.{◌≡◌, refl}
use mathlib.Core.Bool.{Bool, true, false}
use mathlib.Core.Option.{Option, none, some}
use mathlib.Core.List.{[], ◌∷◌}
use ca1_health_monitor.Prelude.Tests.{leb, if◌then◌else◌}
use ca1_health_monitor.Prelude.Int.{ℤ, pos, negsuc, sub_ℕ}
use ca1_health_monitor.Prelude.Text.{same}
use ca1_health_monitor.Prelude.Text.Format.{round_half_even}
use ca1_health_monitor.Prelude.Text.Parse.{strip, decimal, is_digit, signed_text}
use ca1_health_monitor.Prelude.Text.Split.{lower, partition, is_one_of}

-- What `float` makes of a text: a number, an infinity or NaN, or a `ValueError`.
pub data Number : Type 0 where
  finite : ℤ → Number
  not_finite : Number
  not_a_number : Number

-- From here on a number is rounded to an infinity: the largest float and half of its last place.
abbrev pub float_limit : ℕ
float_limit = 2 ^ 1024 - 2 ^ 970

infixl 5 ◌>>=◌
abbrev ◌>>=◌ : {A B : Type 0} → Option A → (A → Option B) → Option B
none >>= f = none
some a >>= f = f a

count_digits : String → ℕ
unfolding is_digit
count_digits String.[] = 0
count_digits (String.◌∷◌ c s) =
    let rest = count_digits s in if is_digit (code c) then suc rest else rest

-- Digits, and how many of them stand behind the point.
point_digits : String → String → Option (ℕ × ℕ)
unfolding decimal count_digits
point_digits String.[] String.[] = none
point_digits String.[] (String.◌∷◌ c s) = do
  m ← decimal false 0 (String.◌∷◌ c s)
  some (m, count_digits (String.◌∷◌ c s))
point_digits (String.◌∷◌ c s) String.[] = do m ← decimal false 0 (String.◌∷◌ c s); some (m, 0)
point_digits (String.◌∷◌ c s) (String.◌∷◌ d t) = do
  m ← decimal false 0 (String.◌∷◌ c s)
  n ← decimal false 0 (String.◌∷◌ d t)
  let places = count_digits (String.◌∷◌ d t)
  some (m * 10 ^ places + n, places)

mantissa : String → Option (ℕ × ℕ)
unfolding point_digits partition
mantissa s = elim (partition "." s) [ none ↦ point_digits s "" | some (a, b) ↦ point_digits a b ]

-- `m / 10 ^ places * 10 ^ e`, in millionths
scaled : ℕ → ℕ → ℤ → ℕ
unfolding round_half_even
scaled m places (pos e) = round_half_even (10 ^ places) (m * 10 ^ (6 + e))
scaled m places (negsuc e) = round_half_even (10 ^ (places + suc e)) (m * 10 ^ 6)

-- A number without a sign, in small letters.
unsigned : String → Option ℕ
unfolding mantissa scaled partition signed_text
unsigned s = elim (partition "e" s) [
  | none ↦ do (m, places) ← mantissa s; some (scaled m places (pos 0))
  | some (a, b) ↦ do (m, places) ← mantissa a; e ← signed_text b; some (scaled m places e)
]

number : Bool → String → Number
unfolding unsigned is_one_of
number negative s =
    if is_one_of s ("inf" ∷ "infinity" ∷ "nan" ∷ []) then not_finite else elim (unsigned s) [
      | none ↦ not_a_number
      | some n ↦
          if leb (float_limit * 1_000_000) n
          then not_finite
          else finite (if negative then sub_ℕ 0 n else sub_ℕ n 0)
    ]

signed_number : String → Number
unfolding number
signed_number String.[] = not_a_number
signed_number (String.◌∷◌ c s) =
    if same (code c) b'-'
    then number true s
    else if same (code c) b'+'
    then number false s
    else number false (String.◌∷◌ c s)

-- `float(s)`
unfoldable pub parse_float : String → Number
unfolding strip lower signed_number
parse_float s = signed_number (lower (strip s))

parses :
    (parse_float " 4.0 " ≡ finite (pos 4_000_000))
    × (parse_float "-.5" ≡ finite (negsuc 499_999))
    × (parse_float "1_0.2_5E-1" ≡ finite (pos 1_025_000))
    × (parse_float "7." ≡ finite (pos 7_000_000))
    × (parse_float "." ≡ not_a_number)
    × (parse_float "1._5" ≡ not_a_number)
    × (parse_float "1e" ≡ not_a_number)
    × (parse_float "+Infinity" ≡ not_finite)
    × (parse_float "1e400" ≡ not_finite)
unfolding parse_float
parses = (refl, refl, refl, refl, refl, refl, refl, refl, refl)
