-- ===== src/Prelude/Text/Path.antt =====
-- `strip("/")` and `replace("/", "-")` of a `str`.
use Prim.Native.Char.{Char, code}
use Prim.Native.String.{String}
use mathlib.Core.Bool.{Bool}
use ca1_health_monitor.Prelude.Tests.{if◌then◌else◌}
use ca1_health_monitor.Prelude.Text.{same}

abbrev pub is_slash : Char → Bool
is_slash c = same (code c) b'/'

unfoldable pub strip_slashes_left : String → String
strip_slashes_left String.[] = ""
strip_slashes_left (String.◌∷◌ c s) = if is_slash c then strip_slashes_left s else String.◌∷◌ c s

unfoldable pub strip_slashes_right : String → String
strip_slashes_right String.[] = ""
strip_slashes_right (String.◌∷◌ c s) = elim (strip_slashes_right s) [
  | String.[] ↦ if is_slash c then "" else String.◌∷◌ c ""
  | String.◌∷◌ d t ↦ String.◌∷◌ c (String.◌∷◌ d t)
]

unfoldable pub strip_slashes : String → String
unfolding strip_slashes_left strip_slashes_right
strip_slashes s = strip_slashes_right (strip_slashes_left s)

unfoldable pub slashes_to_dashes : String → String
slashes_to_dashes String.[] = ""
slashes_to_dashes (String.◌∷◌ c s) =
    String.◌∷◌ (if is_slash c then "-" else c) (slashes_to_dashes s)
