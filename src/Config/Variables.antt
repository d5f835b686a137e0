-- ===== src/Config/Variables.antt =====
-- The variables of the environment by the setting that they stand for, and the entries that
-- `_env_overrides` of config.py collects from them.
use ca1_health_monitor.Prelude.{
  String, Bool, true, false, Bool-cases, Option-cases, Option, none, some, [], ◌∷◌, ◌==◌, eq_iff,
  if◌then◌else◌, ◌&&◌, All, ◌≡◌, inl, inr, refl, sym, ap, subst, ◌∙◌,
}
use ca1_health_monitor.Prelude.Dict.{
  Dict, get, put, get-put, Distinct, put-Distinct, All-get, All-put, or_else, or_else-none, latest,
}
use ca1_health_monitor.Common.Types.{Value, str}
use ca1_health_monitor.Config.Environment.{
  Collected, target_of, collect, collect_all, env_overrides,
}
use ca1_health_monitor.Config.Load.{as_texts}
use ca1_health_monitor.Config.Built.{entries_for}

abbrev pub names : Option (String × String) → String → String → Bool
names none section key = false
names (some (s, k)) section key = s == section && k == key

-- The value of the last variable that stands for a key of a section.
unfoldable pub variable : String → String → Dict String → Option String
unfolding target_of
variable section key [] = none
variable section key ((name, text) ∷ rest) =
    or_else (variable section key rest)
      (if names (target_of name) section key then some text else none)

abbrev pub as_value : Option String → Option Value
as_value none = none
as_value (some text) = some (str text)

abbrev in_leaves : String → Option (Dict String) → Option String
unfolding get
in_leaves key none = none
in_leaves key (some leaves) = get key leaves

-- `collected[section][key]`
unfoldable leaf : String → String → Collected → Option String
unfolding get in_leaves
leaf section key collected = in_leaves key (get section collected)

or_else-if :
    {A : Type 0} (x : Option A) (b : Bool) (a : A) (z : Option A)
    → or_else x (if b then some a else z) ≡ or_else (or_else x (if b then some a else none)) z
or_else-if none true a z = refl
or_else-if none false a z = refl
or_else-if (some w) b a z = refl

leaf-collect :
    (s k section key : String) (text : String) (d : Collected)
    → leaf section key (collect (s, k) text d)
      ≡ (if s == section && k == key then some text else leaf section key d)
unfolding leaf collect get put
leaf-collect s k section key text d = elim (Option-cases (get s d)) [
  | inl n ↦
      rw (collect, n, get-put s section (put k text []) d)
        (elim (Bool-cases (s == section)) [
          | inl e ↦
              let n' = subst (λ a. get a d ≡ none) ((eq_iff s section).0 e) n in
              rw (e, leaf, n') refl
          | inr e ↦ rw e refl
        ])
  | inr (leaves, n) ↦
      rw (collect, n, get-put s section (put k text leaves) d)
        (elim (Bool-cases (s == section)) [
          | inl e ↦
              let n' = subst (λ a. get a d ≡ some leaves) ((eq_iff s section).0 e) n in
              rw (e, leaf, n', get-put k key text leaves) refl
          | inr e ↦ rw e refl
        ])
]

leaf-collect_all :
    (section key : String) (environ : Dict String) (d : Collected)
    → leaf section key (collect_all environ d)
      ≡ or_else (variable section key environ) (leaf section key d)
unfolding variable collect_all
leaf-collect_all section key [] d = refl
leaf-collect_all section key ((name, text) ∷ rest) d = elim (Option-cases (target_of name)) [
  | inl n ↦
      rw (collect_all, variable, n)
        (leaf-collect_all section key rest d
          ∙ ap (λ x. or_else x (leaf section key d))
              (sym (or_else-none (variable section key rest))))
  | inr ((s, k), n) ↦
      rw (collect_all, variable, n)
        (leaf-collect_all section key rest (collect (s, k) text d)
          ∙ ap (or_else (variable section key rest)) (leaf-collect s k section key text d)
          ∙ or_else-if (variable section key rest) (s == section && k == key) text
              (leaf section key d))
]

latest-as_texts :
    (key : String) (leaves : Dict String)
    → Distinct leaves
    → latest key (as_texts leaves) ≡ as_value (get key leaves)
unfolding latest as_texts get
latest-as_texts key [] n = refl
latest-as_texts key ((name, text) ∷ rest) n = elim (Bool-cases (name == key)) [
  | inl e ↦
      let n' = subst (λ a. get a rest ≡ none) ((eq_iff name key).0 e) n.0 in
      rw (e, latest-as_texts key rest n.1, n') refl
  | inr e ↦ rw (e, latest-as_texts key rest n.1) (or_else-none (as_value (get key rest)))
]

-- The leaves of every section are distinct.
abbrev LeavesDistinct : Collected → Type 0
LeavesDistinct = All (λ entry. Distinct entry.1)

collect-LeavesDistinct :
    (target : String × String) (text : String) (d : Collected)
    → LeavesDistinct d
    → LeavesDistinct (collect target text d)
unfolding collect
collect-LeavesDistinct (s, k) text d h = elim (Option-cases (get s d)) [
  | inl n ↦
      rw (collect, n)
        (All-put (λ entry. Distinct entry.1) s (put k text []) d h (put-Distinct k text [] tt))
  | inr (leaves, n) ↦
      rw (collect, n)
        (All-put (λ entry. Distinct entry.1) s (put k text leaves) d h
          (put-Distinct k text leaves (All-get (λ entry. Distinct entry.1) s leaves d h n)))
]

collect_all-LeavesDistinct :
    (environ : Dict String) (d : Collected)
    → LeavesDistinct d
    → LeavesDistinct (collect_all environ d)
unfolding collect_all
collect_all-LeavesDistinct [] d h = h
collect_all-LeavesDistinct ((name, text) ∷ rest) d h = elim (Option-cases (target_of name)) [
  | inl n ↦ rw (collect_all, n) (collect_all-LeavesDistinct rest d h)
  | inr (target, n) ↦
      rw (collect_all, n)
        (collect_all-LeavesDistinct rest (collect target text d)
          (collect-LeavesDistinct target text d h))
]

latest-entries_for :
    (section key : String) (d : Collected)
    → LeavesDistinct d
    → latest key (entries_for section d) ≡ as_value (leaf section key d)
unfolding entries_for leaf latest
latest-entries_for section key d h = elim (Option-cases (get section d)) [
  | inl n ↦ rw (entries_for, leaf, n) refl
  | inr (leaves, n) ↦
      rw (entries_for, leaf, n)
        (latest-as_texts key leaves (All-get (λ entry. Distinct entry.1) section leaves d h n))
]

-- The entries of the environment hold what its last variable for a key says.
pub latest-environment :
    (section key : String) (environ : Dict String)
    → latest key (entries_for section (env_overrides environ))
      ≡ as_value (variable section key environ)
unfolding env_overrides get leaf
latest-environment section key environ =
    latest-entries_for section key (collect_all environ [])
      (collect_all-LeavesDistinct environ [] tt)
    ∙ ap as_value
        (leaf-collect_all section key environ [] ∙ or_else-none (variable section key environ))
