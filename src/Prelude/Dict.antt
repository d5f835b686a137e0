-- ===== src/Prelude/Dict.antt =====
-- Python's `dict` with text keys, in the order of insertion: writing to a key that is there keeps its
-- place.
use Prim.Native.String.{String}
use mathlib.Core.Path.{◌≡◌, refl, sym, ap, subst, subst₂, ◌∙◌}
use mathlib.Core.Logic.{inl, inr}
use mathlib.Core.Bool.{Bool, true, ◌&&◌}
use mathlib.Core.Option.{Option, none, some}
use mathlib.Core.List.{List, [], ◌∷◌, ◌++◌}
use native.Mathlib.Omega.{arith}
use text.Mathlib.Text.{◌==◌}
use text.Mathlib.TextEquality.{eq_iff}
use text.Mathlib.TextPositions.{eq_refl}
use ca1_health_monitor.Prelude.Tests.{if◌then◌else◌, Bool-cases}
use ca1_health_monitor.Prelude.Lists.{All}

abbrev pub Dict {ℓ} : Type ℓ → Type ℓ
Dict V = List (String × V)

module _ {ℓ} {V : Type ℓ} where
  -- `d.get(k)`
  unfoldable pub get : String → Dict V → Option V
  get k [] = none
  get k ((j, v) ∷ d) = if j == k then some v else get k d

  -- `d[k] = v`
  unfoldable pub put : String → V → Dict V → Dict V
  put k v [] = (k, v) ∷ []
  put k v ((j, w) ∷ d) = if j == k then (j, v) ∷ d else (j, w) ∷ put k v d

  pub get-put :
      (k j : String) (v : V) (d : Dict V) → get j (put k v d) ≡ (if k == j then some v else get j d)
  unfolding get put
  get-put k j v [] = refl
  get-put k j v ((i, w) ∷ d) = ground (arith, eq_iff k j, eq_iff i k, eq_iff i j, get-put k j v d)

  pub get-put_self : (k : String) (v : V) (d : Dict V) → get k (put k v d) ≡ some v
  get-put_self k v d = simp (get-put, eq_refl)

-- `d.values()`
abbrev pub values {ℓ} : {V : Type ℓ} → Dict V → List V
values [] = []
values ((k, v) ∷ d) = v ∷ values d

-- A predicate of all entries holds of a found one, and is kept by a write that has it.
pub All-get {ℓ κ} :
    {V : Type ℓ} (P : String × V → Type κ) (k : String) (v : V) (d : Dict V)
    → All P d
    → get k d ≡ some v
    → P (k, v)
unfolding get
All-get P k v [] h e = cc
All-get P k v ((j, w) ∷ d) h e = elim (Bool-cases (j == k)) [
  | inl y ↦ subst₂ (λ a b. P (a, b)) ((eq_iff j k).0 y) (ground arith) h.0
  | inr n ↦ All-get P k v d h.1 (rw n at e)
]

pub All-put {ℓ κ} :
    {V : Type ℓ} (P : String × V → Type κ) (k : String) (v : V) (d : Dict V)
    → All P d
    → P (k, v)
    → All P (put k v d)
unfolding put
All-put P k v [] h p = (p, tt)
All-put P k v ((j, w) ∷ d) h p = elim (Bool-cases (j == k)) [
  | inl y ↦ rw y (subst (λ a. P (a, v)) (sym ((eq_iff j k).0 y)) p, h.1)
  | inr n ↦ rw n (h.0, All-put P k v d h.1 p)
]

-- No key stands twice.
abbrev pub Distinct {ℓ} : {V : Type ℓ} → Dict V → Type ℓ
Distinct [] = Unit
Distinct ((k, v) ∷ d) = (get k d ≡ none) × Distinct d

pub put-Distinct {ℓ} :
    {V : Type ℓ} (k : String) (v : V) (d : Dict V) → Distinct d → Distinct (put k v d)
unfolding get put
put-Distinct k v [] h = (refl, tt)
put-Distinct k v ((j, w) ∷ d) h = elim (Bool-cases (j == k)) [
  | inl y ↦ rw y h
  | inr n ↦
      rw n (ground (arith, get-put k j v d, eq_iff j k, eq_iff k j, h.0), put-Distinct k v d h.1)
]

abbrev pub or_else {ℓ} : {A : Type ℓ} → Option A → Option A → Option A
or_else (some x) y = some x
or_else none y = y

pub or_else-none {ℓ} : {A : Type ℓ} (x : Option A) → or_else x none ≡ x
or_else-none none = refl
or_else-none (some a) = refl

pub or_else_assoc {ℓ} :
    {A : Type ℓ} (x y z : Option A) → or_else (or_else x y) z ≡ or_else x (or_else y z)
or_else_assoc none y z = refl
or_else_assoc (some a) y z = refl

-- The last of several writes to a key, in a list of writes.
unfoldable pub latest {ℓ} : {V : Type ℓ} → String → Dict V → Option V
latest key [] = none
latest key ((name, v) ∷ rest) = or_else (latest key rest) (if name == key then some v else none)

pub latest-append {ℓ} :
    {V : Type ℓ} (key : String) (xs ys : Dict V)
    → latest key (xs ++ ys) ≡ or_else (latest key ys) (latest key xs)
unfolding latest
latest-append key [] ys = sym (or_else-none (latest key ys))
latest-append key ((name, v) ∷ xs) ys =
    ap (λ x. or_else x (if name == key then some v else none)) (latest-append key xs ys)
    ∙ or_else_assoc (latest key ys) (latest key xs) (if name == key then some v else none)

pub put-new {ℓ} :
    {V : Type ℓ} (k : String) (v : V) (d : Dict V) → get k d ≡ none → put k v d ≡ d ++ (k, v) ∷ []
unfolding get put
put-new k v [] h = refl
put-new k v ((j, w) ∷ d) h = elim (Bool-cases (j == k)) [
  | inl y ↦ absurd (cc (rw (get, y) at h))
  | inr n ↦ rw n (ap (◌∷◌ (j, w)) (put-new k v d (rw (get, n) at h)))
]

-- Where no key stands twice, the last entry for a key is the first.
pub latest-Distinct {ℓ} :
    {V : Type ℓ} (key : String) (d : Dict V) → Distinct d → latest key d ≡ get key d
unfolding latest get
latest-Distinct key [] h = refl
latest-Distinct key ((j, v) ∷ d) h = elim (Bool-cases (j == key)) [
  | inl y ↦
      let n = subst (λ a. get a d ≡ none) ((eq_iff j key).0 y) h.0 in
      rw (y, latest-Distinct key d h.1, n) refl
  | inr n ↦ rw (n, latest-Distinct key d h.1) (or_else-none (get key d))
]

-- Tests of all keys, and whether no key stands twice.
abbrev pub all_keys {ℓ} : {V : Type ℓ} → (String → Bool) → Dict V → Bool
all_keys p [] = true
all_keys p ((k, v) ∷ d) = p k && all_keys p d

pub all_keys-All {ℓ} :
    {V : Type ℓ} (p : String → Bool) (d : Dict V)
    → all_keys p d ≡ true
    → All (λ (entry : String × V). p entry.0 ≡ true) d
all_keys-All p [] h = tt
all_keys-All p ((k, v) ∷ d) h = (ground arith, all_keys-All p d (ground arith))

-- A key with an entry.
abbrev pub IsPresent {ℓ} : {V : Type ℓ} → String → Dict V → Type ℓ
IsPresent {V} k d = (v : V) × (get k d ≡ some v)

pub put-IsPresent {ℓ} :
    {V : Type ℓ} (j k : String) (v : V) (d : Dict V) → IsPresent j d → IsPresent j (put k v d)
put-IsPresent j k v d (w, e) = elim (Bool-cases (k == j)) [
  | inl y ↦ (v, rw (get-put, y) refl)
  | inr n ↦ (w, rw (get-put, n) e)
]
