-- ===== src/Checks/Storage/Tests.antt =====
-- Runs of storage_health.py and instances of its theorems: two mounts, of which one answers and the
-- other is lost.
use ca1_health_monitor.Prelude.{
  Result, raised, ◌+◌, ◌<◌, pos, ◌-ℤ◌, ◌≤ℤ◌, ◌<ℤ◌, String, true, false, ◌==◌, none, some, List, [],
  ◌∷◌, ◌≡◌, ◌↔◌, ◌⊎◌, arith, refl, returned, if◌then◌else◌, ℕ,
}
use ca1_health_monitor.Prelude.Dict.{get, put}
use ca1_health_monitor.Common.Timer.{fresh, poll}
use ca1_health_monitor.Common.Types.{
  other_error, Exception, HealthState, ok, degraded, fault, no_stats, CheckResult,
}
use ca1_health_monitor.Prelude.Text.Path.{slashes_to_dashes, strip_slashes}
use ca1_health_monitor.Prelude.Text.{concat}
use ca1_health_monitor.Config.{default_storage}
use ca1_health_monitor.Checks.Base.{service, result}
use ca1_health_monitor.Checks.Storage.{
  MountProbe, StorageProbe, StorageHealthCheck, slug, stale_for, judge, evaluate, observe, check,
  or_zero, probe_all, probe_mount, on_tick,
}
use ca1_health_monitor.Checks.Storage.Filesystem.{
  Os, OsError, try_write, fill, write_probe, clean_up, unwritable, detail_of, probe,
}
use ca1_health_monitor.Checks.Storage.Cleanup.{close_failure}
use ca1_health_monitor.Checks.Storage.States.{AreOrdered, judge_fault}
use ca1_health_monitor.Checks.Storage.Failures.{failed_probe}
use ca1_health_monitor.Checks.Storage.Runs.{NeverRaises, service_skips_nothing}
use ca1_health_monitor.Bus.Tests.{small}

-- Half the space of a mount is free; the write took two milliseconds.
abbrev good : String → MountProbe
good mount = record {
  mount = mount;
  succeeded = true;
  free_fraction = pos 500_000;
  total_bytes = pos 1_000_000_000;
  write_latency_ms = pos 2_000_000;
  error = "";
}

abbrev lost : String → MountProbe
lost mount = record {
  mount = mount;
  succeeded = false;
  free_fraction = pos 0;
  total_bytes = pos 0;
  write_latency_ms = pos 0;
  error = "unreachable";
}

-- The state counts the calls.
abbrev one_lost : StorageProbe ℕ
one_lost mount bytes calls =
    (returned (if mount == "/var/log" then good mount else lost mount), calls + 1)

one_lost-NeverRaises : NeverRaises one_lost
one_lost-NeverRaises mount bytes calls =
    (if mount == "/var/log" then good mount else lost mount, calls + 1, refl)

abbrev two_mounts : StorageHealthCheck ℕ
two_mounts = record {
  base = record {
    timer = fresh (pos 30_000_000) none (pos 100_000_000) "disk-scan" true;
    stats = no_stats;
    last_published = [];
  };
  config = default_storage;
  probe = one_lost;
  mounts = 0;
  last_good_probe = ("/var/log", pos 70_000_000) ∷ ("/var/lib/cases", pos 70_000_000) ∷ [];
  consecutive_failures = ("/var/log", 0) ∷ ("/var/lib/cases", 1) ∷ [];
}

abbrev states : List CheckResult → List HealthState
states [] = []
states (r ∷ rest) = r.state ∷ states rest

-- The lost mount has failed before, so it is at fault.
one_scan :
    states (service {S = List String} check (pos 100_000_000) none two_mounts small).0
    ≡ ok ∷ fault ∷ []
unfolding service evaluate observe judge result on_tick poll ◌-ℤ◌ probe_all probe_mount stale_for
    slug get put slashes_to_dashes strip_slashes
one_scan = refl

default_storage-AreOrdered : AreOrdered default_storage
default_storage-AreOrdered = record { fractions = omega arith; latencies = omega arith }

judge_fault_example : ((judge default_storage (lost "/") 2 (pos 0)).0 ≡ fault) ↔ (
    ((false ≡ true) × ((pos 0 <ℤ pos 80_000) ⊎ (pos 250_000_000 <ℤ pos 0)))
    ⊎ ((false ≡ false) × ((pos 120_000_000 <ℤ pos 0) ⊎ (1 < 2))))
judge_fault_example = judge_fault default_storage (lost "/") 2 (pos 0)

failed_probe_example :
    let r =
      evaluate
        (observe two_mounts "/var/log" false (pos 100_000_000))
        "/var/log"
        (lost "/var/log")
        (pos 100_000_000) in
    ((r.state ≡ fault)
      × ((0 < or_zero (get "/var/log" two_mounts.consecutive_failures))
          ⊎ (pos 120_000_000
              <ℤ stale_for (get "/var/log" two_mounts.last_good_probe) (pos 100_000_000))))
    ⊎ ((r.state ≡ degraded)
        × (or_zero (get "/var/log" two_mounts.consecutive_failures) ≡ 0)
        × (stale_for (get "/var/log" two_mounts.last_good_probe) (pos 100_000_000)
            ≤ℤ pos 120_000_000))
failed_probe_example = failed_probe two_mounts "/var/log" (pos 100_000_000) (lost "/var/log") refl

service_skips_nothing_example :
    (service check (pos 900_000_000) none two_mounts small).1.base.stats.skipped_slots ≡ pos 0
service_skips_nothing_example =
    service_skips_nothing (pos 900_000_000) none two_mounts small one_lost-NeverRaises cc

-- A full disk: the file opens, and neither flushing nor closing it succeeds.
abbrev no_space : OsError
no_space = record { errno = 28; strerror = "No space left on device"; text = "" }

abbrev full : Os ℕ
full = record {
  disk_usage = λ mount w. (returned (record { total = 1_000_000; free = 0 }), w);
  mkstemp = λ mount w. (returned (3, "/data/.hm-probe-1"), w);
  fdopen = λ fd w. (returned fd, w);
  write = λ handle bytes w. (returned tt, w);
  flush = λ handle w. (raised no_space, w);
  fsync = λ handle w. (returned tt, w);
  close = λ handle w. (raised no_space, w);
  unlink = λ path w. (returned tt, w);
  strerror = λ n. "";
  latency_clock = λ w. (pos w, w + 1);
}

-- The same disk under a file whose close does not fail.
abbrev full_closing : Os ℕ
full_closing = record full { close = λ handle w. (returned tt, w) }

close_failure_example : probe full "/data" (pos 4096) 0 ≡ (raised other_error, 1)
unfolding try_write
close_failure_example =
    close_failure full "/data" (pos 4096) 0 0 1 1 (record { total = 1_000_000; free = 0 })
      (raised no_space) 3 (some "/data/.hm-probe-1") no_space refl refl refl

abbrev told : Result Exception MountProbe → String
told (raised e) = ""
told (returned o) = o.error

-- Then the full disk is reported.
full_reported :
    told (probe full_closing "/data" (pos 4096) 0).0 ≡ "write probe: no space left on device"
unfolding probe write_probe try_write fill clean_up unwritable detail_of concat
full_reported = refl
