-- ===== src/Prelude/Text/Case.antt =====
-- `upper()` of a `str`, on its code points.
use Prim.Native.Nat.{ℕ, ◌-◌}
use Prim.Native.Char.{code}
use Prim.Native.String.{String}
use mathlib.Core.Bool.{Bool, true, false, ◌&&◌}
use mathlib.Core.List.{List, [], ◌∷◌}
use ca1_health_monitor.Prelude.Tests.{leb, if◌then◌else◌}
use ca1_health_monitor.Prelude.Text.{same}

unfoldable pub codes : String → List ℕ
codes String.[] = []
codes (String.◌∷◌ c s) = code c ∷ codes s

-- Beyond ASCII only two characters have a capital that is an ASCII letter: the dotless i and the
-- long s. What becomes of the others cannot make a word of ASCII letters, so they stay.
abbrev pub upper_code : ℕ → ℕ
upper_code n =
    if leb 97 n && leb n 122
    then n - 32
    else if same n 305
    then 73
    else if same n 383
    then 83
    else n

unfoldable pub upper_codes : String → List ℕ
upper_codes String.[] = []
upper_codes (String.◌∷◌ c s) = upper_code (code c) ∷ upper_codes s

unfoldable pub same_codes : List ℕ → List ℕ → Bool
same_codes [] [] = true
same_codes [] (y ∷ ys) = false
same_codes (x ∷ xs) [] = false
same_codes (x ∷ xs) (y ∷ ys) = same x y && same_codes xs ys

-- `s.upper() == t`, for a `t` of ASCII capitals.
unfoldable pub is_upper_case : String → String → Bool
unfolding codes upper_codes same_codes
is_upper_case s t = same_codes (upper_codes s) (codes t)
