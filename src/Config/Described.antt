-- ===== src/Config/Described.antt =====
-- `describe` of config.py: the flat record that is logged at the start.
use ca1_health_monitor.Prelude.{String, List, [], ◌∷◌, ◌++◌, ◌≡◌, refl, sym, ap₂, ◌∙◌}
use ca1_health_monitor.Common.Types.{Payload}
use ca1_health_monitor.Config.{ServiceConfig, default_config}
use ca1_health_monitor.Config.Fields.{
  Kind, bool_kind, float_kind, int_kind, str_kind, list_kind, Attribute, Table, Values,
  logging_section, memory_section, storage_section, heartbeat_section, service_fields,
  section_fields, service_values, section_values, with_service, with_section, all_sections,
}
use ca1_health_monitor.Config.Describe.{
  as_items, attribute_value, flatten, flatten_sections, describe,
}

as_items-injective : (ss ts : List String) → as_items ss ≡ as_items ts → ss ≡ ts
as_items-injective [] [] h = refl
as_items-injective [] (t ∷ ts) h = absurd (cc h)
as_items-injective (s ∷ ss) [] h = absurd (cc h)
as_items-injective (s ∷ ss) (t ∷ ts) h = ap₂ (◌∷◌) (cc h) (as_items-injective ss ts (cc h))

attribute_value-injective :
    (kind : Kind) (x y : Attribute kind) → attribute_value kind x ≡ attribute_value kind y → x ≡ y
attribute_value-injective bool_kind x y h = cc
attribute_value-injective float_kind x y h = cc
attribute_value-injective int_kind x y h = cc
attribute_value-injective str_kind x y h = cc
attribute_value-injective list_kind x y h = as_items-injective x y (cc h)

-- The entries of an object that come first determine it, and the rest.
flatten-injective :
    (table : Table) (before : String) (xs ys : Values table) (r s : Payload)
    → flatten table before xs ++ r ≡ flatten table before ys ++ s
    → (xs ≡ ys) × (r ≡ s)
unfolding flatten
flatten-injective [] before xs ys r s h = (refl, h)
flatten-injective ((name, kind) ∷ table) before (x, xs) (y, ys) r s h =
    let (tails, rests) = flatten-injective table before xs ys r s (cc h) in
    (ap₂ (λ a b. (a, b)) (attribute_value-injective kind x y (cc h)) tails, rests)

-- The keys are different, so the dictionary has all the pairs, in their order.
pub describe-flat :
    (c : ServiceConfig)
    → describe c ≡ flatten service_fields "" (service_values c) ++ flatten_sections all_sections c
unfolding describe
describe-flat c = refl

abbrev rebuilt :
    Values service_fields
    → Values (section_fields logging_section)
    → Values (section_fields memory_section)
    → Values (section_fields storage_section)
    → Values (section_fields heartbeat_section)
    → ServiceConfig
rebuilt s l m t b = with_section logging_section l (
    with_section memory_section m (
      with_section storage_section t
        (with_section heartbeat_section b (with_service s default_config))))

-- Two configurations with the same description are the same.
pub describe-injective : (c d : ServiceConfig) → describe c ≡ describe d → c ≡ d
unfolding flatten_sections
describe-injective c d h =
    let all = sym (describe-flat c) ∙ h ∙ describe-flat d in
    let (s, h) =
      flatten-injective service_fields "" (service_values c) (service_values d) _ _ all in
    let (l, h) =
      flatten-injective (section_fields logging_section) "logging."
        (section_values logging_section c) (section_values logging_section d) _ _ h in
    let (m, h) =
      flatten-injective (section_fields memory_section) "memory." (section_values memory_section c)
        (section_values memory_section d) _ _ h in
    let (t, h) =
      flatten-injective (section_fields storage_section) "storage."
        (section_values storage_section c) (section_values storage_section d) _ _ h in
    let (b, h) =
      flatten-injective (section_fields heartbeat_section) "heartbeat."
        (section_values heartbeat_section c) (section_values heartbeat_section d) _ _ h in
    λ i. rebuilt (s i) (l i) (m i) (t i) (b i)
