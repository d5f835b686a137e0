-- ===== src/Prelude/Text/Laws.antt =====
-- The laws of the functions on `str`.
use Prim.Native.Char.{Char, code}
use Prim.Native.String.{String}
use mathlib.Core.Path.{◌≡◌, refl, ap, ap₂}
use mathlib.Core.Logic.{inl, inr}
use mathlib.Core.Bool.{true, false, ◌||◌, or-true}
use mathlib.Core.Option.{some}
use native.Mathlib.Omega.{arith}
use text.Mathlib.TextEquality.{Char-path}
use text.Mathlib.TextPositions.{eq_refl}
use ca1_health_monitor.Prelude.Tests.{Bool-cases}
use ca1_health_monitor.Prelude.Text.{
  same, append, has_dot, ends_with, but_last, after_prefix, after_last_dot,
}

pub append-nil : (s : String) → append s "" ≡ s
unfolding append
append-nil String.[] = refl
append-nil (String.◌∷◌ c s) = ap (String.◌∷◌ c) (append-nil s)

pub append_assoc : (s t u : String) → append (append s t) u ≡ append s (append t u)
unfolding append
append_assoc String.[] t u = refl
append_assoc (String.◌∷◌ c s) t u = ap (String.◌∷◌ c) (append_assoc s t u)

pub after_prefix-append : (p s : String) → after_prefix p (append p s) ≡ some s
unfolding after_prefix append
after_prefix-append String.[] s = refl
after_prefix-append (String.◌∷◌ c p) s = ground (arith, after_prefix-append p s)

-- A text that starts with `p` is `p` followed by the rest.
pub after_prefix-inversion : (p s rest : String) → after_prefix p s ≡ some rest → s ≡ append p rest
unfolding after_prefix append
after_prefix-inversion String.[] s rest e = ground arith
after_prefix-inversion (String.◌∷◌ c p) String.[] rest e = absurd (ground arith)
after_prefix-inversion (String.◌∷◌ c p) (String.◌∷◌ d s) rest e =
    elim (Bool-cases (same (code c) (code d))) [
      | inl h ↦
          ap₂ String.◌∷◌ (Char-path d c (ground arith))
            (after_prefix-inversion p s rest (rw h at e))
      | inr h ↦ absurd (ground arith)
    ]

pub but_last-append : (s : String) (c : Char) → but_last (append s (String.◌∷◌ c "")) ≡ s
unfolding but_last append
but_last-append String.[] c = refl
but_last-append (String.◌∷◌ d String.[]) c = refl
but_last-append (String.◌∷◌ d (String.◌∷◌ e s)) c =
    ap (String.◌∷◌ d) (but_last-append (String.◌∷◌ e s) c)

pub ends_with-append : (s t : String) → ends_with (append s t) t ≡ true
unfolding ends_with append
ends_with-append String.[] String.[] = refl
ends_with-append String.[] (String.◌∷◌ c t) = rw eq_refl
ends_with-append (String.◌∷◌ c s) t = ground (arith, ends_with-append s t)

pub has_dot-append : (s t : String) → has_dot (append s t) ≡ (has_dot s || has_dot t)
unfolding has_dot append
has_dot-append String.[] t = refl
has_dot-append (String.◌∷◌ c s) t = ground (arith, has_dot-append s t)

dotted : (s t : String) → has_dot (append s (String.◌∷◌ "." t)) ≡ true
unfolding has_dot
dotted s t = rw (has_dot-append s (String.◌∷◌ "." t), or-true)

-- `rsplit` finds the segment behind the last dot.
pub after_last_dot-append :
    (s t : String) → has_dot t ≡ false → after_last_dot (append s (append "." t)) ≡ t
unfolding after_last_dot append
after_last_dot-append String.[] t h = ground arith
after_last_dot-append (String.◌∷◌ c s) t h = rw (dotted s t) (after_last_dot-append s t h)
