-- ===== src/Config/Coerce.antt =====
-- `_coerce` and `_apply_section` of config.py. What `str()` writes for a float, a list or an object is
-- an argument.
use ca1_health_monitor.Prelude.{
  ℕ, leb, suc, ◌*◌, ℤ, pos, negsuc, sub_ℕ, String, Bool, true, false, List, [], ◌∷◌, Result, raised,
  returned, ◌>>=◌, ◌==◌, if◌then◌else◌,
}
use ca1_health_monitor.Prelude.Text.{append}
use ca1_health_monitor.Prelude.Text.Format.{show_ℤ}
use ca1_health_monitor.Prelude.Text.Parse.{strip}
use ca1_health_monitor.Prelude.Text.Split.{lower, listed, is_one_of}
use ca1_health_monitor.Prelude.Text.Number.{
  float_limit, finite, not_finite, not_a_number, parse_float,
}
use ca1_health_monitor.Common.Types.{
  Exception, other_error, Value, none_value, bool, float, int, str, list, Items, no_items, item,
  Payload, to_int,
}
use ca1_health_monitor.Config.Fields.{
  Kind, bool_kind, float_kind, int_kind, str_kind, list_kind, Attribute, Table, Values,
}
use ca1_health_monitor.Config.Validate.{ConfigError, breaks, expected}

-- How loading can end without a configuration: the `ConfigError`, another exception that leaves the
-- call, or a float that is infinite or no number, which the code takes and the model does not hold.
pub data LoadError : Type 0 where
  refused : ConfigError → LoadError
  crashed : Exception → LoadError
  outside : String → LoadError

abbrev pub Loaded : Type 0 → Type 0
Loaded A = Result LoadError A

abbrev true_words : List String
true_words = "1" ∷ "true" ∷ "yes" ∷ "on" ∷ []

abbrev false_words : List String
false_words = "0" ∷ "false" ∷ "no" ∷ "off" ∷ []

unfoldable pub coerce_bool : Value → String → Loaded Bool
unfolding strip lower is_one_of
coerce_bool (bool b) path = returned b
coerce_bool (str s) path =
    let lowered = lower (strip s) in
    if is_one_of lowered true_words
    then returned true
    else if is_one_of lowered false_words
    then returned false
    else raised (refused (expected path "a boolean" (str s)))
coerce_bool v path = raised (refused (expected path "a boolean" v))

abbrev in_millionths : ℤ → ℤ
in_millionths (pos n) = pos (n * 1_000_000)
in_millionths (negsuc n) = sub_ℕ 0 (suc n * 1_000_000)

abbrev magnitude : ℤ → ℕ
magnitude (pos n) = n
magnitude (negsuc n) = suc n

-- `float` of an integer that is too large is an `OverflowError`, which is not caught.
unfoldable pub coerce_float : Value → String → Loaded ℤ
unfolding parse_float
coerce_float (bool b) path = returned (pos (if b then 1_000_000 else 0))
coerce_float (float x) path = returned x
coerce_float (int n) path =
    if leb float_limit (magnitude n)
    then raised (crashed other_error)
    else returned (in_millionths n)
coerce_float (str s) path = elim (parse_float s) [
  | finite x ↦ returned x
  | not_finite ↦ raised (outside path)
  | not_a_number ↦ raised (refused (expected path "a number" (str s)))
]
coerce_float v path = raised (refused (expected path "a number" v))

-- `except (TypeError, ValueError)` around `int(raw)`
integer_or : Value → String → Result Exception ℤ → Loaded ℤ
integer_or v path (returned n) = returned n
integer_or v path (raised other_error) = raised (crashed other_error)
integer_or v path (raised e) = raised (refused (expected path "an integer" v))

unfoldable pub coerce_int : Value → String → Loaded ℤ
unfolding to_int integer_or
coerce_int v path = integer_or v path (to_int v)

module _ (repr : Value → String) where
  -- `str(value)`
  unfoldable pub text_of : Value → String
  unfolding show_ℤ
  text_of none_value = "None"
  text_of (bool b) = if b then "True" else "False"
  text_of (int n) = show_ℤ n
  text_of (str s) = s
  text_of v = repr v

  -- `[str(part) for part in raw]`
  unfoldable pub texts_of : Items → List String
  unfolding text_of
  texts_of no_items = []
  texts_of (item v rest) = text_of v ∷ texts_of rest

  unfoldable pub coerce_list : Value → String → Loaded (List String)
  unfolding listed texts_of
  coerce_list (str s) path = returned (listed s)
  coerce_list (list items) path = returned (texts_of items)
  coerce_list v path = raised (refused (expected path "a list of strings" v))

  -- `_coerce`
  unfoldable pub coerce : (kind : Kind) → Value → String → Loaded (Attribute kind)
  unfolding coerce_bool coerce_float coerce_int text_of coerce_list
  coerce bool_kind v path = coerce_bool v path
  coerce float_kind v path = coerce_float v path
  coerce int_kind v path = coerce_int v path
  coerce str_kind v path = returned (text_of v)
  coerce list_kind v path = coerce_list v path

  -- The body of the loop of `_apply_section`: the lookup in `known`, the coercion to the declared
  -- type, and `setattr`.
  unfoldable pub assign :
      (table : Table) → String → Value → String → Values table → Loaded (Values table)
  unfolding coerce
  assign [] key v path xs = raised (refused (breaks path "unknown configuration key"))
  assign ((name, kind) ∷ table) key v path (x, xs) =
      let others = assign table key v path xs in
      if name == key
      then (coerce kind v path >>= λ y. returned (y, xs))
      else (others >>= λ ys. returned (x, ys))

-- `_apply_section`, over the body of its loop.
unfoldable pub apply_section :
    {S : Type 0} → (String → Value → String → S → Loaded S) → Payload → String → S → Loaded S
unfolding append
apply_section step [] before target = returned target
apply_section step ((key, v) ∷ rest) before target =
    step key v (append before key) target >>= apply_section step rest before
