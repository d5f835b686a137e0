-- ===== src/Config/Describe.antt =====
-- `describe` of config.py: the settings as one flat dictionary.
use ca1_health_monitor.Prelude.{String, List, [], ◌∷◌, ◌++◌}
use ca1_health_monitor.Prelude.Text.{append}
use ca1_health_monitor.Prelude.Dict.{Dict, put}
use ca1_health_monitor.Common.Types.{
  Value, bool, float, int, str, list, Items, no_items, item, Payload,
}
use ca1_health_monitor.Config.{ServiceConfig}
use ca1_health_monitor.Config.Fields.{
  Kind, bool_kind, float_kind, int_kind, str_kind, list_kind, Attribute, Table, Values, Section,
  all_sections, section_name, service_fields, section_fields, service_values, section_values,
}

abbrev pub as_items : List String → Items
as_items [] = no_items
as_items (s ∷ rest) = item (str s) (as_items rest)

-- An attribute as the Python value that it is.
abbrev pub attribute_value : (kind : Kind) → Attribute kind → Value
attribute_value bool_kind b = bool b
attribute_value float_kind x = float x
attribute_value int_kind n = int n
attribute_value str_kind s = str s
attribute_value list_kind ss = list (as_items ss)

-- The part of `_flatten` for the fields that are no dataclasses.
unfoldable pub flatten : (table : Table) → String → Values table → Payload
unfolding append
flatten [] before xs = []
flatten ((name, kind) ∷ table) before (x, xs) =
    (append before name, attribute_value kind x) ∷ flatten table before xs

-- `dict(pairs)`: a key that is there already keeps its place and takes the new value.
unfoldable pub dict_of : Payload → Dict Value → Dict Value
unfolding put
dict_of [] d = d
dict_of ((key, v) ∷ rest) d = dict_of rest (put key v d)

unfoldable pub flatten_sections : List Section → ServiceConfig → Payload
unfolding flatten append
flatten_sections [] c = []
flatten_sections (s ∷ rest) c =
    flatten (section_fields s) (append (section_name s) ".") (section_values s c)
    ++ flatten_sections rest c

-- `describe`
unfoldable pub describe : ServiceConfig → Dict Value
unfolding flatten flatten_sections dict_of
describe c =
    dict_of (flatten service_fields "" (service_values c) ++ flatten_sections all_sections c) []
