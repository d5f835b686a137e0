-- ===== src/Logging/Extra.antt =====
-- What the logging library makes of the `extra` of a call, as far as logging_setup.py depends on it.
use ca1_health_monitor.Prelude.{
  String, Bool, true, false, ◌||◌, Bool-cases, Option, none, some, [], ◌∷◌, ◌++◌, ◌==◌, eq_iff,
  if◌then◌else◌, All, append-nil, append_assoc, ◌≡◌, inl, inr, refl, sym, ap, subst, ◌∙◌, arith,
}
use ca1_health_monitor.Prelude.Dict.{Dict, get, put, get-put, put-new, Distinct, latest}
use ca1_health_monitor.Prelude.Text.{after_prefix}
use ca1_health_monitor.Prelude.Text.Split.{is_one_of}
use ca1_health_monitor.Common.Types.{Payload}
use ca1_health_monitor.Logging.{Object, is_reserved, is_passed_over, is_some}
use ca1_health_monitor.Logging.Safe.{object_of}

-- The attributes that `extra` adds, as objects.
unfoldable pub as_objects : Payload → Dict Object
unfolding object_of
as_objects [] = []
as_objects ((key, v) ∷ rest) = (key, object_of v) ∷ as_objects rest

-- What the logging library makes of `extra`: a `KeyError`, or the attributes with it added.
unfoldable pub with_extra : Dict Object → Dict Object → Option (Dict Object)
unfolding is_one_of get put
with_extra attributes [] = some attributes
with_extra attributes ((key, o) ∷ rest) =
    let added = with_extra (put key o attributes) rest in
    if is_one_of key ("message" ∷ "asctime" ∷ []) || is_some (get key attributes)
    then none
    else added

abbrev pub Free : {V : Type 0} → Dict V → Type 0
Free = All (λ entry. is_passed_over entry.0 ≡ false)

abbrev pub AllReserved : Dict Object → Type 0
AllReserved = All (λ entry. is_reserved entry.0 ≡ true)

or_parts : (a b : Bool) → (a || b) ≡ false → (a ≡ false) × (b ≡ false)
or_parts true b h = absurd (cc h)
or_parts false b h = (refl, h)

different : (a b : String) → (b == a) ≡ false → (a == b) ≡ false
different a b h = ground (arith, eq_iff a b, eq_iff b a)

free_not_reserved : (key : String) → is_passed_over key ≡ false → is_reserved key ≡ false
unfolding is_passed_over
free_not_reserved key h = (or_parts (is_reserved key) (is_some (after_prefix "_" key)) h).0

not_word :
    (key word : String) → is_reserved word ≡ true → is_reserved key ≡ false → (key == word) ≡ false
not_word key word w h = elim (Bool-cases (key == word)) [
  | inl e ↦
      let n = subst (λ k. is_reserved k ≡ false) ((eq_iff key word).0 e) h in absurd (cc (w, n))
  | inr e ↦ e
]

free_not_added :
    (key : String) → is_passed_over key ≡ false → is_one_of key ("message" ∷ "asctime" ∷ []) ≡ false
unfolding is_one_of is_reserved
free_not_added key h =
    let n = free_not_reserved key h in
    rw (is_one_of, not_word key "message" refl n, not_word key "asctime" refl n) refl

-- A key that is not reserved is not among reserved ones.
pub get-AllReserved :
    (key : String) (d : Dict Object) → AllReserved d → is_passed_over key ≡ false → get key d ≡ none
unfolding get
get-AllReserved key [] h n = refl
get-AllReserved key ((name, o) ∷ d) h n =
    rw (get, different name key (not_word key name h.0 (free_not_reserved key n)))
      (get-AllReserved key d h.1 n)

-- The keys of the second are not in the first.
abbrev Unknown : Dict Object → Dict Object → Type 0
Unknown attributes = All (λ entry. get entry.0 attributes ≡ none)

pub AllReserved-Unknown :
    (attributes extra : Dict Object)
    → AllReserved attributes
    → Free extra
    → Unknown attributes extra
AllReserved-Unknown attributes [] r f = tt
AllReserved-Unknown attributes ((key, o) ∷ rest) r f =
    (get-AllReserved key attributes r f.0, AllReserved-Unknown attributes rest r f.1)

put-Unknown :
    (key : String) (o : Object) (attributes rest : Dict Object)
    → get key rest ≡ none
    → Unknown attributes rest
    → Unknown (put key o attributes) rest
unfolding get
put-Unknown key o attributes [] n u = tt
put-Unknown key o attributes ((name, v) ∷ rest) n u = elim (Bool-cases (name == key)) [
  | inl e ↦ absurd (cc (rw (get, e) at n))
  | inr e ↦ (
    get-put key name o attributes ∙ rw (different key name e) u.0,
    put-Unknown key o attributes rest (rw (get, e) at n) u.1,
  )
]

-- The library takes an extra whose keys are new, different and free.
pub with_extra-Free :
    (attributes extra : Dict Object)
    → Free extra
    → Distinct extra
    → Unknown attributes extra
    → with_extra attributes extra ≡ some (attributes ++ extra)
unfolding with_extra
with_extra-Free attributes [] f d u = ap some (sym (append-nil attributes))
with_extra-Free attributes ((key, o) ∷ rest) f d u =
    rw (with_extra, free_not_added key f.0, u.0)
      (with_extra-Free (put key o attributes) rest f.1 d.1
          (put-Unknown key o attributes rest d.0 u.1)
        ∙ ap some (
            ap (λ a. a ++ rest) (put-new key o attributes u.0)
            ∙ append_assoc attributes ((key, o) ∷ []) rest))

pub latest-AllReserved :
    (key : String) (d : Dict Object)
    → AllReserved d
    → is_passed_over key ≡ false
    → latest key d ≡ none
unfolding latest
latest-AllReserved key [] h n = refl
latest-AllReserved key ((name, o) ∷ d) h n =
    rw
      (
        latest,
        latest-AllReserved key d h.1 n,
        different name key (not_word key name h.0 (free_not_reserved key n)),
      )
      refl
