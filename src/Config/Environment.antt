-- ===== src/Config/Environment.antt =====
-- `_env_overrides` of config.py: the variables that begin with `ENV_PREFIX`, by section and key.
use ca1_health_monitor.Prelude.{String, Option, none, some, [], ◌∷◌}
use ca1_health_monitor.Prelude.Text.{after_prefix}
use ca1_health_monitor.Prelude.Text.Split.{lower, partition}
use ca1_health_monitor.Prelude.Dict.{Dict, get, put}

abbrev pub env_prefix : String
env_prefix = "HM_"

-- The section and the key that a variable's name stands for; a key of the service itself has the
-- section "". `none` for a variable that is passed over.
unfoldable pub target_of : String → Option (String × String)
unfolding after_prefix lower partition
target_of raw_key = elim (after_prefix env_prefix raw_key) [
  | none ↦ none
  | some rest ↦
      let remainder = lower rest in
      elim (partition "__" remainder) [ none ↦ some ("", remainder) | some target ↦ some target ]
]

abbrev pub Collected : Type 0
Collected = Dict (Dict String)

-- `collected.setdefault(section, {})[leaf] = raw_value`
unfoldable pub collect : String × String → String → Collected → Collected
unfolding get put
collect (section, leaf) raw_value collected = elim (get section collected) [
  | none ↦ put section (put leaf raw_value []) collected
  | some leaves ↦ put section (put leaf raw_value leaves) collected
]

-- The loop over the variables.
unfoldable pub collect_all : Dict String → Collected → Collected
unfolding target_of collect
collect_all [] collected = collected
collect_all ((raw_key, raw_value) ∷ rest) collected = elim (target_of raw_key) [
  | none ↦ collect_all rest collected
  | some target ↦ collect_all rest (collect target raw_value collected)
]

-- `_env_overrides`
unfoldable pub env_overrides : Dict String → Collected
unfolding collect_all
env_overrides environ = collect_all environ []
