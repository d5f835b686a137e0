-- ===== src/Bus/Topics.antt =====
-- `_matches` of bus.py: which topics a pattern takes.
use ca1_health_monitor.Prelude.{
  String, true, false, ◌≡◌, ◌↔◌, inl, inr, arith, eq_iff, ◌==◌, Option, none, some, refl, sym, ap,
  ◌∙◌, Bool-cases,
}
use ca1_health_monitor.Prelude.Text.{append, has_dot, ends_with, but_last, after_prefix}
use ca1_health_monitor.Prelude.Text.Laws.{
  ends_with-append, but_last-append, after_prefix-append, after_prefix-inversion, append_assoc,
}
use ca1_health_monitor.Bus.{one_segment, matches}

-- A pattern that does not end in a wildcard takes its own topic alone.
pub matches-exact :
    (pattern topic : String)
    → ends_with pattern ".*" ≡ false
    → (matches pattern topic ≡ true) ↔ (pattern ≡ topic)
unfolding matches
matches-exact pattern topic h = ground (arith, eq_iff pattern topic)

wildcard_prefix : (p : String) → but_last (append p ".*") ≡ append p "."
unfolding append
wildcard_prefix p = ap but_last (sym (append_assoc p "." "*")) ∙ but_last-append (append p ".") "*"

-- Behind a wildcard's prefix, the test is for one segment.
after_wildcard :
    (p segment : String)
    → after_prefix (append p ".") (append p (append "." segment)) ≡ some segment
after_wildcard p segment = rw (← append_assoc) (after_prefix-append (append p ".") segment)

-- The topic is the prefix and one more segment.
abbrev pub IsUnder : String → String → Type 0
IsUnder p topic =
    (segment : String) × (topic ≡ append p (append "." segment)) × (has_dot segment ≡ false)

IsUnder-after_prefix :
    (p topic : String) (rest : Option String)
    → after_prefix (append p ".") topic ≡ rest
    → one_segment rest ≡ true
    → IsUnder p topic
IsUnder-after_prefix p topic none e h = absurd (ground arith)
IsUnder-after_prefix p topic (some segment) e h = (
  segment,
  after_prefix-inversion (append p ".") topic segment e ∙ append_assoc p "." segment,
  ground arith,
)

IsUnder-matches : (p topic : String) → matches (append p ".*") topic ≡ true → IsUnder p topic
unfolding matches append has_dot
IsUnder-matches p topic h = elim (Bool-cases (append p ".*" == topic)) [
  | inl same ↦ ("*", sym ((eq_iff (append p ".*") topic).0 same), refl)
  | inr other ↦
      IsUnder-after_prefix p topic (after_prefix (append p ".") topic) refl
        (rw (other, ends_with-append, wildcard_prefix) at h)
]

matches-IsUnder : (p topic : String) → IsUnder p topic → matches (append p ".*") topic ≡ true
unfolding matches
matches-IsUnder p topic (segment, e, h) =
    rw (e, ends_with-append, wildcard_prefix, after_wildcard, h) (ground arith)

-- A wildcard takes exactly the topics with one more segment, whatever it is, behind the prefix.
pub matches-wildcard : (p topic : String) → (matches (append p ".*") topic ≡ true) ↔ IsUnder p topic
matches-wildcard p topic = (IsUnder-matches p topic, matches-IsUnder p topic)
