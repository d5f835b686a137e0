-- ===== src/Config/RoundTrip.antt =====
-- A configuration written down as a document and read back by `from_mapping` of config.py.
use ca1_health_monitor.Prelude.{
  String, List, [], ◌∷◌, ◌++◌, returned, ◌>>=◌, >>=-returned, ◌≡◌, refl, ap, ap₂,
}
use ca1_health_monitor.Common.Types.{Value, dict, Payload, as_fields}
use ca1_health_monitor.Config.{ServiceConfig, default_config}
use ca1_health_monitor.Config.Validate.{
  Checked, validate, validate_service, validate_memory, validate_storage, validate_heartbeat,
}
use ca1_health_monitor.Config.Fields.{
  Section, logging_section, memory_section, storage_section, heartbeat_section, all_sections,
  section_name, service_fields, section_fields, service_values, section_values,
}
use ca1_health_monitor.Config.Describe.{flatten, as_items}
use ca1_health_monitor.Config.Coerce.{Loaded, texts_of, coerce, apply_section}
use ca1_health_monitor.Config.Load.{
  object, set_slot, checked, Draft, draft_of, top_level, assign_service, apply_sections,
  from_mapping, validate_draft, section_document, items_of, apply_object,
}

abbrev section_objects : List Section → ServiceConfig → Payload
unfolding flatten as_fields
section_objects [] c = []
section_objects (s ∷ rest) c =
    (section_name s, dict (as_fields (flatten (section_fields s) "" (section_values s c))))
    ∷ section_objects rest c

-- The document that states every setting of a configuration.
unfoldable pub document_of : ServiceConfig → Payload
unfolding flatten section_objects
document_of c = flatten service_fields "" (service_values c) ++ section_objects all_sections c

texts_of-as_items : (repr : Value → String) (ss : List String) → texts_of repr (as_items ss) ≡ ss
unfolding texts_of
texts_of-as_items repr [] = refl
texts_of-as_items repr (s ∷ ss) = ap (◌∷◌ s) (texts_of-as_items repr ss)

top_part :
    (repr : Value → String) (c : ServiceConfig)
    → apply_section (assign_service repr) (top_level (document_of c)) "" (draft_of default_config)
      ≡ returned (record (draft_of default_config) { service = service_values c })
unfolding apply_section assign_service top_level document_of coerce
top_part repr c = refl

-- The draft after the sections of a document have been read, one after the other.
abbrev restored : ServiceConfig → Draft
restored c = record {
  service = service_values c;
  slot = set_slot heartbeat_section (object (section_values heartbeat_section c)) (
      set_slot storage_section (object (section_values storage_section c)) (
        set_slot memory_section (object (section_values memory_section c)) (
          set_slot logging_section (object (section_values logging_section c))
            (λ s. object (section_values s default_config)))));
}

abbrev with_lists : List String → List String → ServiceConfig → ServiceConfig
with_lists mounts peers c = record c {
  storage = record c.storage { mounts = mounts };
  heartbeat = record c.heartbeat { peers = peers };
}

sections_part :
    (repr : Value → String) (c : ServiceConfig)
    → apply_sections repr all_sections
        (document_of c)
        (record (draft_of default_config) { service = service_values c })
      ≡ returned (restored c)
unfolding apply_sections document_of coerce section_document apply_object items_of as_fields
sections_part repr c =
    ap₂ (λ mounts peers. returned (restored (with_lists mounts peers c)))
      (texts_of-as_items repr c.storage.mounts) (texts_of-as_items repr c.heartbeat.peers)

pub then_checked :
    {m : Checked} {k : Loaded ServiceConfig} {c : ServiceConfig}
    → m ≡ returned tt
    → k ≡ returned c
    → (checked m >>= λ _. k) ≡ returned c
then_checked hm hk = rw hm hk

validate_draft-restored :
    (c : ServiceConfig) → validate c ≡ returned tt → validate_draft (restored c) ≡ returned c
unfolding validate validate_draft validate_service
validate_draft-restored c h =
    let (_, hs, h) = >>=-returned (validate_service c) _ h in
    let (_, hm, h) = >>=-returned (validate_memory c.memory) _ h in
    let (_, ht, h) = >>=-returned (validate_storage c.storage) _ h in
    let (_, hh, hl) = >>=-returned (validate_heartbeat c.heartbeat) _ h in
    then_checked hs (then_checked hm (then_checked ht (then_checked hh (then_checked hl refl))))

-- A configuration that passes `validate` is read back from the document that states all its settings,
-- when the environment has no variables.
pub from_mapping-document_of :
    (repr : Value → String) (c : ServiceConfig)
    → validate c ≡ returned tt
    → from_mapping repr (document_of c) [] ≡ returned c
unfolding from_mapping
from_mapping-document_of repr c h =
    rw (from_mapping, top_part repr c) (rw (sections_part repr c) (validate_draft-restored c h))
