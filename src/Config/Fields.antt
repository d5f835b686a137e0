-- ===== src/Config/Fields.antt =====
-- The dataclass fields of config.py as `fields` lists them: the name and the declared type of each.
-- An instance is the tuple of its attributes, so an attribute always has its declared type.
use ca1_health_monitor.Prelude.{
  ℤ, String, Bool, Option, none, some, List, [], ◌∷◌, ◌==◌, if◌then◌else◌,
}
use ca1_health_monitor.Config.{
  MemoryCheckConfig, StorageCheckConfig, HeartbeatCheckConfig, LoggingConfig, ServiceConfig,
}

-- The types that a scalar field is declared with.
pub data Kind : Type 0 where
  bool_kind float_kind int_kind str_kind list_kind : Kind

abbrev pub Attribute : Kind → Type 0
Attribute bool_kind = Bool
Attribute float_kind = ℤ
Attribute int_kind = ℤ
Attribute str_kind = String
Attribute list_kind = List String

abbrev pub Table : Type 0
Table = List (String × Kind)

abbrev pub Values : Table → Type 0
Values [] = Unit
Values ((name, kind) ∷ table) = Attribute kind × Values table

-- The sections, in the order of `_SECTIONS`.
pub data Section : Type 0 where
  logging_section memory_section storage_section heartbeat_section : Section

abbrev pub all_sections : List Section
all_sections = logging_section ∷ memory_section ∷ storage_section ∷ heartbeat_section ∷ []

abbrev pub section_name : Section → String
section_name logging_section = "logging"
section_name memory_section = "memory"
section_name storage_section = "storage"
section_name heartbeat_section = "heartbeat"

-- `_SECTIONS` as a lookup.
unfoldable pub section_named : String → Option Section
section_named s =
    if s == "logging"
    then some logging_section
    else if s == "memory"
    then some memory_section
    else if s == "storage"
    then some storage_section
    else if s == "heartbeat"
    then some heartbeat_section
    else none

-- The fields of `ServiceConfig` that are no sections.
abbrev pub service_fields : Table
service_fields =
    ("service_name", str_kind)
    ∷ ("instance_id", str_kind)
    ∷ ("loop_period_s", float_kind)
    ∷ ("shutdown_grace_s", float_kind)
    ∷ ("bus_socket", str_kind)
    ∷ []

abbrev pub section_fields : Section → Table
section_fields logging_section =
    ("level", str_kind) ∷ ("format", str_kind) ∷ ("include_monotonic", bool_kind) ∷ []
section_fields memory_section =
    ("enabled", bool_kind)
    ∷ ("scan_period_s", float_kind)
    ∷ ("region_bytes", int_kind)
    ∷ ("pages_per_slice", int_kind)
    ∷ ("slice_budget_ms", float_kind)
    ∷ ("correctable_warn_threshold", int_kind)
    ∷ ("uncorrectable_fault_threshold", int_kind)
    ∷ []
section_fields storage_section =
    ("enabled", bool_kind)
    ∷ ("scan_period_s", float_kind)
    ∷ ("mounts", list_kind)
    ∷ ("free_warn_fraction", float_kind)
    ∷ ("free_fault_fraction", float_kind)
    ∷ ("probe_write_bytes", int_kind)
    ∷ ("probe_latency_warn_ms", float_kind)
    ∷ ("probe_latency_fault_ms", float_kind)
    ∷ ("stall_threshold_s", float_kind)
    ∷ []
section_fields heartbeat_section =
    ("enabled", bool_kind)
    ∷ ("emit_period_s", float_kind)
    ∷ ("peer_timeout_s", float_kind)
    ∷ ("peers", list_kind)
    ∷ ("quorum_min_live", int_kind)
    ∷ []

-- The attributes of a configuration, and the configuration of attributes.
abbrev pub service_values : ServiceConfig → Values service_fields
service_values c =
    (c.service_name, (c.instance_id, (c.loop_period_s, (c.shutdown_grace_s, (c.bus_socket, tt)))))

abbrev pub section_values : (s : Section) → ServiceConfig → Values (section_fields s)
section_values logging_section c =
    (c.logging.level, (c.logging.format, (c.logging.include_monotonic, tt)))
section_values memory_section c =
    let m = c.memory in
    (
      m.enabled,
      (
        m.scan_period_s,
        (
          m.region_bytes,
          (
            m.pages_per_slice,
            (
              m.slice_budget_ms,
              (m.correctable_warn_threshold, (m.uncorrectable_fault_threshold, tt)),
            ),
          ),
        ),
      ),
    )
section_values storage_section c =
    let s = c.storage in
    (
      s.enabled,
      (
        s.scan_period_s,
        (
          s.mounts,
          (
            s.free_warn_fraction,
            (
              s.free_fault_fraction,
              (
                s.probe_write_bytes,
                (s.probe_latency_warn_ms, (s.probe_latency_fault_ms, (s.stall_threshold_s, tt))),
              ),
            ),
          ),
        ),
      ),
    )
section_values heartbeat_section c =
    let h = c.heartbeat in
    (h.enabled, (h.emit_period_s, (h.peer_timeout_s, (h.peers, (h.quorum_min_live, tt)))))

abbrev logging_of : Values (section_fields logging_section) → LoggingConfig
logging_of (level, (format, (include_monotonic, _))) = record {
  level = level;
  format = format;
  include_monotonic = include_monotonic;
}

abbrev memory_of : Values (section_fields memory_section) → MemoryCheckConfig
memory_of (enabled, (period, (region, (pages, (budget, (warn, (fault, _))))))) = record {
  enabled = enabled;
  scan_period_s = period;
  region_bytes = region;
  pages_per_slice = pages;
  slice_budget_ms = budget;
  correctable_warn_threshold = warn;
  uncorrectable_fault_threshold = fault;
}

abbrev storage_of : Values (section_fields storage_section) → StorageCheckConfig
storage_of
      (
        enabled,
        (period, (mounts, (warn, (fault, (bytes, (latency_warn, (latency_fault, (stall, _)))))))),
      ) =
    record {
      enabled = enabled;
      scan_period_s = period;
      mounts = mounts;
      free_warn_fraction = warn;
      free_fault_fraction = fault;
      probe_write_bytes = bytes;
      probe_latency_warn_ms = latency_warn;
      probe_latency_fault_ms = latency_fault;
      stall_threshold_s = stall;
    }

abbrev heartbeat_of : Values (section_fields heartbeat_section) → HeartbeatCheckConfig
heartbeat_of (enabled, (period, (timeout, (peers, (quorum, _))))) = record {
  enabled = enabled;
  emit_period_s = period;
  peer_timeout_s = timeout;
  peers = peers;
  quorum_min_live = quorum;
}

-- A configuration with new values for the fields that are no sections, and for one section.
abbrev pub with_service : Values service_fields → ServiceConfig → ServiceConfig
with_service (service_name, (instance_id, (period, (grace, (socket, _))))) c = record c {
  service_name = service_name;
  instance_id = instance_id;
  loop_period_s = period;
  shutdown_grace_s = grace;
  bus_socket = socket;
}

abbrev pub with_section : (s : Section) → Values (section_fields s) → ServiceConfig → ServiceConfig
with_section logging_section xs c = record c { logging = logging_of xs }
with_section memory_section xs c = record c { memory = memory_of xs }
with_section storage_section xs c = record c { storage = storage_of xs }
with_section heartbeat_section xs c = record c { heartbeat = heartbeat_of xs }
