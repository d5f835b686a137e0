-- ===== src/Config/Load.antt =====
-- `from_mapping` and `load` of config.py. While it is built, a configuration is a draft, since a
-- variable without a key can put a list where a section was.
use ca1_health_monitor.Prelude.{
  ℕ, String, Option, none, some, List, [], ◌∷◌, raised, returned, ◌>>=◌, ◌==◌, if◌then◌else◌,
}
use ca1_health_monitor.Prelude.Text.{append}
use ca1_health_monitor.Prelude.Dict.{Dict, get}
use ca1_health_monitor.Common.Types.{
  Exception, type_error, other_error, Value, str, dict, Fields, no_fields, field, Payload,
}
use ca1_health_monitor.Config.{ServiceConfig, default_config}
use ca1_health_monitor.Config.Validate.{
  breaks, unknown_section, not_found, malformed, Checked, validate_service, validate_memory,
  validate_storage, validate_heartbeat, validate_logging,
}
use ca1_health_monitor.Config.Fields.{
  list_kind, Values, Section, logging_section, memory_section, storage_section, heartbeat_section,
  all_sections, section_name, section_named, service_fields, section_fields, service_values,
  section_values, with_service, with_section,
}
use ca1_health_monitor.Config.Coerce.{
  LoadError, refused, crashed, Loaded, coerce, assign, apply_section,
}
use ca1_health_monitor.Config.Environment.{Collected, env_overrides}

-- What an attribute for a section holds: its object, or a list that took its place.
pub data Slot (s : Section) : Type 0 where
  object : Values (section_fields s) → Slot s
  replaced : List String → Slot s

pub record Draft : Type 0 where
  pub service : Values service_fields
  pub slot : (s : Section) → Slot s

abbrev pub set_slot : (s : Section) → Slot s → ((t : Section) → Slot t) → (t : Section) → Slot t
set_slot logging_section x f logging_section = x
set_slot memory_section x f memory_section = x
set_slot storage_section x f storage_section = x
set_slot heartbeat_section x f heartbeat_section = x
set_slot _ x f t = f t

-- `ServiceConfig()`, with the values of a configuration in place of the defaults.
abbrev pub draft_of : ServiceConfig → Draft
draft_of c = record { service = service_values c; slot = λ s. object (section_values s c) }

-- The attributes of a section's object; a list has none.
unfoldable pub attributes : {s : Section} → LoadError → Slot s → Loaded (Values (section_fields s))
attributes e (object xs) = returned xs
attributes e (replaced texts) = raised e

-- `{k: v for k, v in document.items() if k not in _SECTIONS}`
unfoldable pub top_level : Payload → Payload
unfolding section_named
top_level [] = []
top_level ((key, v) ∷ rest) = elim (section_named key) [
  | none ↦ (key, v) ∷ top_level rest
  | some s ↦ top_level rest
]

unfoldable pub items_of : Fields → Payload
items_of no_fields = []
items_of (field key v rest) = (key, v) ∷ items_of rest

-- What `document.get(section_name, {})` gives has to be an object.
unfoldable pub object_items : Section → Option Value → Loaded Payload
unfolding items_of
object_items s none = returned []
object_items s (some (dict fs)) = returned (items_of fs)
object_items s (some _) = raised (refused (breaks (section_name s) "expected an object"))

unfoldable pub section_document : Section → Payload → Loaded Payload
unfolding get object_items
section_document s document = object_items s (get (section_name s) document)

unfoldable pub as_texts : Dict String → Payload
as_texts [] = []
as_texts ((key, s) ∷ rest) = (key, str s) ∷ as_texts rest

module _ (repr : Value → String) where
  -- One round of `_apply_section` on the configuration itself, whose fields include the sections.
  unfoldable pub assign_service : String → Value → String → Draft → Loaded Draft
  unfolding section_named coerce assign
  assign_service key v path d = elim (section_named key) [
    | none ↦ assign repr service_fields key v path d.service >>= λ xs.
        returned (record d { service = xs })
    | some s ↦ coerce repr list_kind v path >>= λ texts.
        returned (record d { slot = set_slot s (replaced texts) d.slot })
  ]

  -- `_apply_section` on the object of a section.
  unfoldable pub apply_object : LoadError → Section → Payload → Draft → Loaded Draft
  unfolding attributes assign apply_section append
  apply_object e s overrides d = do
    xs ← attributes e (d.slot s)
    ys ← apply_section (assign repr (section_fields s)) overrides (append (section_name s) ".") xs
    returned (record d { slot = set_slot s (object ys) d.slot })

  -- The loop over `_SECTIONS`.
  unfoldable pub apply_sections : List Section → Payload → Draft → Loaded Draft
  unfolding section_document apply_object
  apply_sections [] document d = returned d
  apply_sections (s ∷ rest) document d = do
    section_doc ← section_document s document
    d' ←
        apply_object (refused (breaks (section_name s) "not a configurable section")) s section_doc
          d
    apply_sections rest document d'

  -- The body of the loop over the environment: `fields` of a list is a `TypeError`.
  unfoldable pub override : String → Payload → Draft → Loaded Draft
  unfolding apply_section assign_service section_named apply_object
  override name overrides d =
      if name == ""
      then apply_section assign_service overrides "" d
      else elim (section_named name) [
        | none ↦ raised (refused (unknown_section name))
        | some s ↦ apply_object (crashed type_error) s overrides d
      ]

  unfoldable pub override_all : Collected → Draft → Loaded Draft
  unfolding override as_texts
  override_all [] d = returned d
  override_all ((name, overrides) ∷ rest) d =
      override name (as_texts overrides) d >>= override_all rest

abbrev pub checked : Checked → Loaded (Unit {0})
checked (raised e) = raised (refused e)
checked (returned tt) = returned tt

-- `config.<section>` as `validate` uses it: a list in its place has no such attributes.
abbrev pub section_of : (s : Section) → Draft → ServiceConfig → Loaded ServiceConfig
section_of s d c =
    attributes (crashed other_error) (d.slot s) >>= λ xs. returned (with_section s xs c)

-- `validate(config)`, on a draft, which it turns into a configuration.
unfoldable pub validate_draft : Draft → Loaded ServiceConfig
unfolding validate_service attributes validate_memory validate_storage validate_heartbeat
    validate_logging
validate_draft d = do
  let c = with_service d.service default_config
  _ ← checked (validate_service c)
  c ← section_of memory_section d c
  _ ← checked (validate_memory c.memory)
  c ← section_of storage_section d c
  _ ← checked (validate_storage c.storage)
  c ← section_of heartbeat_section d c
  _ ← checked (validate_heartbeat c.heartbeat)
  c ← section_of logging_section d c
  _ ← checked (validate_logging c.logging)
  returned c

-- `from_mapping`
unfoldable pub from_mapping : (Value → String) → Payload → Dict String → Loaded ServiceConfig
unfolding apply_section assign_service top_level apply_sections override_all env_overrides
    validate_draft
from_mapping repr document environ = do
  d ← apply_section (assign_service repr) (top_level document) "" (draft_of default_config)
  d ← apply_sections repr all_sections document d
  d ← override_all repr (env_overrides environ) d
  validate_draft d

-- What reading and parsing the file comes to.
pub data FileDocument : Type 0 where
  missing : FileDocument
  malformed_line : ℕ → FileDocument
  failed : Exception → FileDocument
  parsed : Value → FileDocument

-- `load`
unfoldable pub load : (Value → String) → String → FileDocument → Dict String → Loaded ServiceConfig
unfolding from_mapping items_of
load repr path missing environ = raised (refused (not_found path))
load repr path (malformed_line n) environ = raised (refused (malformed path n))
load repr path (failed e) environ = raised (crashed e)
load repr path (parsed (dict fs)) environ = from_mapping repr (items_of fs) environ
load repr path (parsed v) environ = raised (refused (breaks path "top level must be an object"))
