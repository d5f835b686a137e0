-- ===== src/Prelude/Text/Format.antt =====
-- Numbers as text: `str` of an integer, `round`, and the fixed formats of the f-strings. A float is
-- an integer number of millionths.
use Prim.Native.Nat.{ℕ, zero, suc, ◌+◌, ◌-◌, ◌*◌, ◌/◌, ◌%◌, ◌^◌, ◌<◌}
use Prim.Native.String.{String}
use mathlib.Core.Path.{◌≡◌, refl}
use mathlib.Core.Bool.{◌&&◌, ◌||◌}
use mathlib.Core.List.{List, [], ◌∷◌}
use native.Mathlib.Omega.{arith}
use ca1_health_monitor.Prelude.Tests.{ltb, if◌then◌else◌}
use ca1_health_monitor.Prelude.Int.{ℤ, pos, negsuc}
use ca1_health_monitor.Prelude.Text.{same, append, concat}

abbrev digit_of : ℕ → List String → String
digit_of n [] = "9"
digit_of zero (d ∷ ds) = d
digit_of (suc n) (d ∷ ds) = digit_of n ds

digit : ℕ → String
digit n = digit_of n ("0" ∷ "1" ∷ "2" ∷ "3" ∷ "4" ∷ "5" ∷ "6" ∷ "7" ∷ "8" ∷ [])

-- The decimal digits of a number before what follows. The number itself is fuel enough, since each
-- round divides it by ten.
digits : ℕ → ℕ → String → String
unfolding digit append
digits zero n rest = rest
digits (suc fuel) n rest =
    let written = append (digit (n % 10)) rest in
    let more = digits fuel (n / 10) written in if ltb n 10 then written else more

-- `str(n)`
unfoldable pub show_ℕ : ℕ → String
unfolding digits
show_ℕ n = digits (suc n) n ""

-- `str(z)`
unfoldable pub show_ℤ : ℤ → String
unfolding show_ℕ append
show_ℤ (pos n) = show_ℕ n
show_ℤ (negsuc n) = append "-" (show_ℕ (suc n))

-- `n` in steps of `unit`, rounded to the nearest, a half to the even step.
unfoldable pub round_half_even : ℕ → ℕ → ℕ
round_half_even unit n =
    let q = n / unit in
    let r = n % unit in
    if ltb (2 * r) unit || (same (2 * r) unit && same (q % 2) 0) then q else q + 1

-- `round(x, places)` of a number of millionths, for at most six places.
unfoldable pub round_to : ℕ → ℤ → ℤ
unfolding round_half_even
round_to places (pos n) = let unit = 10 ^ (6 - places) in pos (round_half_even unit n * unit)
round_to places (negsuc n) =
    let unit = 10 ^ (6 - places) in
    elim (round_half_even unit (suc n) * unit) [ zero ↦ pos 0 | suc k ↦ negsuc k ]

-- A number of steps of 1 / 10 ^ places, with as many digits behind the point.
point : ℕ → ℕ → String
unfolding show_ℕ concat
point zero n = show_ℕ n
point (suc p) n =
    let places = suc p in
    let unit = 10 ^ places in
    let padded = digits places (n % unit + unit) "" in
    concat (show_ℕ (n / unit) ∷ "." ∷ padded ∷ [])

-- `f"{x:.<places>f}"` of a number of millionths.
unfoldable pub fixed : ℕ → ℤ → String
unfolding round_half_even point append
fixed places (pos n) = point places (round_half_even (10 ^ (6 - places)) n)
fixed places (negsuc n) = append "-" (point places (round_half_even (10 ^ (6 - places)) (suc n)))

-- `f"{x:.1%}"` of a number of millionths.
unfoldable pub percent : ℤ → String
unfolding round_half_even point concat
percent (pos n) = append (point 1 (round_half_even 1000 n)) "%"
percent (negsuc n) = concat ("-" ∷ point 1 (round_half_even 1000 (suc n)) ∷ "%" ∷ [])

formats :
    (show_ℤ (pos 1048576) ≡ "1048576")
    × (show_ℤ (negsuc 41) ≡ "-42")
    × (fixed 2 (pos 3205000) ≡ "3.20")
    × (fixed 2 (pos 3206000) ≡ "3.21")
    × (fixed 1 (pos 40050001) ≡ "40.1")
    × (percent (pos 79600) ≡ "8.0%")
    × (round_to 3 (pos 1234567) ≡ pos 1235000)
unfolding show_ℤ fixed percent round_to
formats = (refl, refl, refl, refl, refl, refl, refl)

-- More fuel than the number changes nothing.
digits_enough : (f g n : ℕ) (rest : String) → n < f → n < g → digits f n rest ≡ digits g n rest
unfolding digits
digits_enough zero g n rest h k = elim h [ ]
digits_enough (suc f) zero n rest h k = elim k [ ]
digits_enough (suc f) (suc g) n rest h k =
    ground (arith, digits_enough f g (n / 10) (append (digit (n % 10)) rest))
