-- ===== src/Prelude/Text.antt =====
-- What the program uses of Python's `str`: concatenation, prefixes, suffixes and dots.
pub mod Laws
pub mod Format
pub mod Parse
pub mod Path
pub mod Case
pub mod Split
pub mod Number
use Prim.Native.Nat.{ℕ, compare, Ordering}
use Prim.Native.Char.{Char, code}
use Prim.Native.String.{String}
use mathlib.Core.Bool.{Bool, true, false, ◌||◌}
use mathlib.Core.Option.{Option, none, some}
use mathlib.Core.List.{List, [], ◌∷◌}
use text.Mathlib.Text.{◌==◌}
use ca1_health_monitor.Prelude.Tests.{if◌then◌else◌}

-- Equality of two code points, by their order.
abbrev pub same : ℕ → ℕ → Bool
same a b = elim (compare a b) [ Ordering.eq ↦ true | _ ↦ false ]

unfoldable pub append : String → String → String
append String.[] t = t
append (String.◌∷◌ c s) t = String.◌∷◌ c (append s t)

-- An f-string: its literal parts and its values, one after the other.
unfoldable pub concat : List String → String
unfolding append
concat [] = ""
concat (s ∷ rest) = append s (concat rest)

abbrev pub is_dot : Char → Bool
is_dot c = same (code c) b'.'

-- `"." in s`
unfoldable pub has_dot : String → Bool
has_dot String.[] = false
has_dot (String.◌∷◌ c s) = is_dot c || has_dot s

-- `s.endswith(t)`
unfoldable pub ends_with : String → String → Bool
ends_with String.[] t = "" == t
ends_with (String.◌∷◌ c s) t = String.◌∷◌ c s == t || ends_with s t

-- `s[:-1]`
unfoldable pub but_last : String → String
but_last String.[] = ""
but_last (String.◌∷◌ c String.[]) = ""
but_last (String.◌∷◌ c (String.◌∷◌ d s)) = String.◌∷◌ c (but_last (String.◌∷◌ d s))

-- `s[len(p):]` where `s.startswith(p)`, and `none` where it does not.
unfoldable pub after_prefix : String → String → Option String
after_prefix String.[] s = some s
after_prefix (String.◌∷◌ c p) String.[] = none
after_prefix (String.◌∷◌ c p) (String.◌∷◌ d s) =
    if same (code c) (code d) then after_prefix p s else none

-- `s.rsplit(".", 1)[-1]`
unfoldable pub after_last_dot : String → String
unfolding has_dot
after_last_dot String.[] = ""
after_last_dot (String.◌∷◌ c s) =
    if has_dot s then after_last_dot s else if is_dot c then s else String.◌∷◌ c s
