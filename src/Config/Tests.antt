-- ===== src/Config/Tests.antt =====
-- Runs of config.py: the defaults are accepted, and a configuration that breaks a rule is not.
use ca1_health_monitor.Prelude.{pos, true, ◌≡◌, ◌↔◌, refl, raised, returned}
use ca1_health_monitor.Prelude.Text.Case.{is_upper_case}
use ca1_health_monitor.Config.{ServiceConfig, default_config, default_heartbeat, default_logging}
use ca1_health_monitor.Config.Validate.{
  breaks, validate, validate_service, require_positive, validate_memory, validate_storage,
  require_fraction, validate_heartbeat, validate_logging, is_level,
}
use ca1_health_monitor.Config.Rules.{Rules, validate_iff}

pub defaults_accepted : validate default_config ≡ returned tt
unfolding validate validate_service require_positive validate_memory validate_storage
    require_fraction validate_heartbeat validate_logging is_level
defaults_accepted = refl

-- Four required peers of three.
abbrev too_many : ServiceConfig
too_many = record default_config {
  heartbeat = record default_heartbeat { quorum_min_live = pos 5 };
  logging = record default_logging { level = "info" };
}

quorum_refused :
    validate too_many
    ≡ raised (breaks "heartbeat.quorum_min_live" "cannot exceed the number of configured peers")
unfolding validate validate_service require_positive validate_memory validate_storage
    require_fraction validate_heartbeat
quorum_refused = refl

lower_case : is_upper_case "warning" "WARNING" ≡ true
unfolding is_upper_case
lower_case = refl

validate_iff_example : (validate default_config ≡ returned tt) ↔ Rules default_config
validate_iff_example = validate_iff default_config
