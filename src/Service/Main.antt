-- ===== src/Service/Main.antt =====
-- `__init__` of `HealthMonitorService` and `main` of service.py: from the command line to the exit
-- code. The loop runs without the dispatch thread that `main` starts.
use ca1_health_monitor.Prelude.{
  ℕ, ℤ, String, Bool, false, Option, none, List, Result, raised, returned, leb, not, ◌||◌,
  if◌then◌else◌,
}
use ca1_health_monitor.Prelude.Dict.{Dict}
use ca1_health_monitor.Common.Timer.{TimerConfigurationError}
use ca1_health_monitor.Common.Types.{Exception, other_error, Value}
use ca1_health_monitor.Bus
use ca1_health_monitor.Bus.{Message, MessageBus, max_queue_depth}
use ca1_health_monitor.Config.{ServiceConfig}
use ca1_health_monitor.Config.Coerce.{refused, crashed, outside, Loaded}
use ca1_health_monitor.Config.Load.{FileDocument, load}
use ca1_health_monitor.Checks.Storage.Filesystem.{Os}
use ca1_health_monitor.Config.Describe.{describe}
use ca1_health_monitor.Logging.{Object, is_some}
use ca1_health_monitor.Logging.Extra.{as_objects, with_extra}
use ca1_health_monitor.Logging.Setup.{Library, configure}
use ca1_health_monitor.Service.{HealthMonitorService}
use ca1_health_monitor.Service.Build.{Objects, Built, build_checks}
use ca1_health_monitor.Service.Run.{Round, Progress, run}

abbrev pub exit_ok : ℕ
exit_ok = 0

abbrev pub exit_config : ℕ
exit_config = 2

abbrev pub exit_check_init : ℕ
exit_check_init = 3

-- What `parse_args` returns.
pub record Arguments : Type 0 where
  pub config : String
  pub max_iterations : Option ℤ

-- What the program meets: the files, the environment, the memory and the mounts, the clock while the
-- checks are built and when a message is heard, the store before, the state of the logging library, the
-- number of its next handler and the attributes of a new record, and the run's readings and rounds.
pub record World (M S : Type 0) : Type 0 where
  pub repr : Value → String
  pub read : String → FileDocument
  pub environ : Dict String
  pub platform : M
  pub mounts : S
  pub clock : ℕ → ℤ
  pub heard : Message → Objects M S → ℤ
  pub store : Objects M S
  pub library : Library
  pub handler : ℕ
  pub attributes : Dict Object
  pub start : ℤ
  pub stop : ℤ
  pub status : ℤ
  pub rounds : List Round

-- How the program ends: an exit code, an exception that nothing catches, a value that the model does
-- not hold, or not within the rounds.
pub data Outcome (M S : Type 0) : Type 0 where
  exits : ℕ → Library → HealthMonitorService (Objects M S) → Outcome M S
  quits : ℕ → Library → Outcome M S
  uncaught : Exception → Outcome M S
  unmodelled : String → Outcome M S
  serving : Library → HealthMonitorService (Objects M S) → Outcome M S

module _ {M S : Type 0} (budget : M → ℤ × M) (os : Os S) where
  -- `HealthMonitorService.__init__`, on the bus and the checks that `build_checks` gives.
  unfoldable pub assembled :
      ServiceConfig
      → Built budget os × MessageBus (Objects M S)
      → HealthMonitorService (Objects M S)
  assembled config ((checks, objects), bus) = record {
    config = config;
    bus = bus;
    checks = checks;
    objects = objects;
    running = false;
    iterations = 0;
    started_at = none;
  }

  -- `return service.run(...)`, as far as the rounds go
  unfoldable pub exit_code : Library → Progress (Objects M S) → Outcome M S
  exit_code l p = if p.ended then exits exit_ok l p.service else serving l p.service

  -- The construction of the service, and its run.
  unfoldable pub serve :
      ServiceConfig
      → Option ℤ
      → World M S
      → Library
      → Result TimerConfigurationError (Built budget os × MessageBus (Objects M S))
      → Outcome M S
  unfolding assembled exit_code run
  serve config max_iterations w l (raised e) = quits exit_check_init l
  serve config max_iterations w l (returned built) =
      exit_code l (run max_iterations w.start w.stop w.status w.rounds (assembled config built))

  -- The call of `configure`.
  unfoldable pub configured : ServiceConfig → World M S → Library
  unfolding configure
  configured config w =
      configure config.logging.level config.logging.format config.service_name config.instance_id
        config.logging.include_monotonic none w.handler w.library

  -- `LOGGER.info("configuration loaded", extra=describe(config))`: whether it returns. A record is
  -- made only if the level lets it through, and a key that it has already is a `KeyError`.
  unfoldable pub logs_configuration : ServiceConfig → World M S → Library → Bool
  unfolding describe as_objects with_extra
  logs_configuration config w l =
      not (leb l.level 20) || is_some (with_extra w.attributes (as_objects (describe config)))

  -- What follows a `load` that returns.
  unfoldable pub start_up : ServiceConfig → Option ℤ → World M S → Outcome M S
  unfolding configured logs_configuration serve build_checks Bus.new
  start_up config max_iterations w =
      let l = configured config w in
      if logs_configuration config w l
      then serve config max_iterations w l (
          build_checks budget os config w.platform w.mounts w.clock w.heard w.store
            (Bus.new config.service_name max_queue_depth))
      else uncaught other_error

  unfoldable pub loaded : Option ℤ → World M S → Loaded ServiceConfig → Outcome M S
  unfolding start_up
  loaded max_iterations w (raised (refused e)) = quits exit_config w.library
  loaded max_iterations w (raised (crashed e)) = uncaught e
  loaded max_iterations w (raised (outside path)) = unmodelled path
  loaded max_iterations w (returned config) = start_up config max_iterations w

  -- `main`
  unfoldable pub main : Arguments → World M S → Outcome M S
  unfolding loaded load
  main args w =
      loaded args.max_iterations w (load w.repr args.config (w.read args.config) w.environ)
