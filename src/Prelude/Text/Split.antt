-- ===== src/Prelude/Text/Split.antt =====
-- What config.py uses to take texts apart: `lower()`, `partition`, `split(",")`, and the words that it
-- reads.
use Prim.Native.Nat.{ℕ, zero, suc, ◌-◌}
use Prim.Native.Char.{Char, code}
use Prim.Native.String.{String}
use mathlib.Core.Path.{◌≡◌, refl}
use mathlib.Core.Bool.{Bool, false, ◌&&◌, ◌||◌}
use mathlib.Core.Option.{Option, none, some}
use mathlib.Core.List.{List, [], ◌∷◌}
use text.Mathlib.Text.{◌==◌}
use ca1_health_monitor.Prelude.Tests.{leb, if◌then◌else◌}
use ca1_health_monitor.Prelude.Text.{same, after_prefix}
use ca1_health_monitor.Prelude.Text.Parse.{strip}

char_at : ℕ → String → Char → Char
char_at n String.[] d = d
char_at zero (String.◌∷◌ c s) d = c
char_at (suc n) (String.◌∷◌ c s) d = char_at n s d

-- Beyond ASCII only the Kelvin sign has an ASCII letter alone as its small form. What becomes of the
-- others cannot make a word of ASCII letters, so they stay.
lower_char : Char → Char
unfolding char_at
lower_char c =
    let n = code c in
    if leb 65 n && leb n 90
    then char_at (n - 65) "abcdefghijklmnopqrstuvwxyz" c
    else if same n 8490
    then "k"
    else c

-- `s.lower()`
unfoldable pub lower : String → String
unfolding lower_char
lower String.[] = ""
lower (String.◌∷◌ c s) = String.◌∷◌ (lower_char c) (lower s)

before : Char → Option (String × String) → Option (String × String)
before c none = none
before c (some (s, t)) = some (String.◌∷◌ c s, t)

-- `s.partition(sep)` without the separator, and `none` where `sep not in s`.
unfoldable pub partition : String → String → Option (String × String)
unfolding before after_prefix
partition sep String.[] = elim (after_prefix sep "") [ none ↦ none | some rest ↦ some ("", rest) ]
partition sep (String.◌∷◌ c s) =
    let later = partition sep s in
    elim (after_prefix sep (String.◌∷◌ c s)) [ none ↦ before c later | some rest ↦ some ("", rest) ]

onto_first : Char → List String → List String
onto_first c [] = String.◌∷◌ c "" ∷ []
onto_first c (s ∷ rest) = String.◌∷◌ c s ∷ rest

-- `s.split(",")`
unfoldable pub split_commas : String → List String
unfolding onto_first
split_commas String.[] = "" ∷ []
split_commas (String.◌∷◌ c s) =
    let rest = split_commas s in if same (code c) b',' then "" ∷ rest else onto_first c rest

stripped : List String → List String
unfolding strip
stripped [] = []
stripped (part ∷ rest) =
    let parts = stripped rest in if strip part == "" then parts else strip part ∷ parts

-- `[part.strip() for part in s.split(",") if part.strip()]`
unfoldable pub listed : String → List String
unfolding split_commas stripped
listed s = stripped (split_commas s)

-- `s in (...)`
unfoldable pub is_one_of : String → List String → Bool
is_one_of s [] = false
is_one_of s (word ∷ words) = s == word || is_one_of s words

splits :
    (lower "HM_Bus" ≡ "hm_bus")
    × (partition "__" "memory__enabled__x" ≡ some ("memory", "enabled__x"))
    × (partition "__" "enabled_" ≡ none)
    × (listed " a, ,b c,," ≡ "a" ∷ "b c" ∷ [])
    × (listed "" ≡ [])
unfolding lower partition listed
splits = (refl, refl, refl, refl, refl)
