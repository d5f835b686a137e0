-- ===== src/Checks/Memory/Tick.antt =====
-- A tick of memory_integrity.py: `_summarise_pass` and `on_tick`, and the check as an instance of
-- the interface.
use ca1_health_monitor.Prelude.{
  ℕ, ◌+◌, ℤ, pos, ◌-ℤ◌, leb_ℤ, max_ℤ, String, Bool, true, false, Option, none, some, List, [], ◌∷◌,
  refl, Result, returned, if◌then◌else◌, ltb,
}
use ca1_health_monitor.Prelude.Text.{concat}
use ca1_health_monitor.Prelude.Text.Format.{show_ℕ, show_ℤ}
use ca1_health_monitor.Common.Timer.{TimerTick, mark_serviced}
use ca1_health_monitor.Common.Types.{
  int, Payload, Exception, HealthState, ok, degraded, fault, CheckResult,
}
use ca1_health_monitor.Bus.{MessageBus}
use ca1_health_monitor.Config.{MemoryCheckConfig}
use ca1_health_monitor.Checks.Base.{Check, result}
use ca1_health_monitor.Checks.Memory.{
  check_id, EccCounters, MemorySource, MemoryIntegrityCheck, M, bind, call,
}
use ca1_health_monitor.Checks.Memory.Slice.{advance_slice}

abbrev pub or_counters : Option EccCounters → EccCounters → EccCounters
or_counters none counters = counters
or_counters (some b) counters = b

-- `max(0, now - then)`
abbrev pub delta : ℤ → ℤ → ℤ
delta now then_ = max_ℤ (pos 0) (now -ℤ then_)

-- The ladder of `_summarise_pass`.
unfoldable pub judge : MemoryCheckConfig → ℕ → ℤ → ℤ → HealthState × String
unfolding concat
judge config mismatches correctable uncorrectable =
    if leb_ℤ config.uncorrectable_fault_threshold uncorrectable
    then (fault, concat (show_ℤ uncorrectable ∷ " uncorrectable ECC event(s) during pass" ∷ []))
    else if ltb 0 mismatches
    then (fault, concat (show_ℕ mismatches ∷ " checksum mismatch(es) during pass" ∷ []))
    else if leb_ℤ config.correctable_warn_threshold correctable
    then (degraded, concat (show_ℤ correctable ∷ " correctable ECC event(s) during pass" ∷ []))
    else (ok, "region verified")

module _ {W : Type 0} where
  unfoldable pub pass_metrics : MemoryIntegrityCheck W → ℤ → ℤ → Payload
  pass_metrics c correctable uncorrectable =
      ("pass_index", int (pos c.pass_index))
      ∷ ("pages_scanned", int (pos c.pages_this_pass))
      ∷ ("region_bytes", int c.config.region_bytes)
      ∷ ("checksum_mismatches", int (pos c.mismatches_this_pass))
      ∷ ("ecc_correctable", int correctable)
      ∷ ("ecc_uncorrectable", int uncorrectable)
      ∷ []

  -- `_summarise_pass` once the counters are read.
  unfoldable pub summarise :
      ℤ → EccCounters → MemoryIntegrityCheck W → CheckResult × MemoryIntegrityCheck W
  unfolding result
  summarise now counters c =
      let before = or_counters c.baseline counters in
      let correctable = delta counters.correctable before.correctable in
      let uncorrectable = delta counters.uncorrectable before.uncorrectable in
      let (state, detail) = judge c.config c.mismatches_this_pass correctable uncorrectable in
      (
        result check_id state detail "" now (pass_metrics c correctable uncorrectable),
        record c {
          pass_index = c.pass_index + 1;
          cursor = pos 0;
          mismatches_this_pass = 0;
          pages_this_pass = 0;
          baseline = some counters;
        },
      )

  abbrev pub acknowledge : ℤ → MemoryIntegrityCheck W → MemoryIntegrityCheck W
  acknowledge now c = record c {
    base = record c.base { timer = mark_serviced c.base.timer now (some now) };
  }

  module _ (source : MemorySource W) where
    -- `_summarise_pass`, where the pass is complete
    unfoldable pub finish_slice : ℤ → Bool → M W (List CheckResult)
    finish_slice now false c = (returned [], c)
    finish_slice now true c =
        bind (call source.ecc_counters)
          (λ counters c'. let (r, c'') = summarise now counters c' in (returned (r ∷ []), c'')) c

    -- `on_tick`; the warning of a slipped cadence goes to the log alone
    unfoldable pub sweep : ℤ → M W (List CheckResult)
    sweep now c =
        bind (advance_slice source)
          (λ completed c'. finish_slice now completed (acknowledge now c')) c

    unfoldable pub on_tick :
        {S : Type 0}
        → TimerTick
        → MemoryIntegrityCheck W
        → MessageBus S
        → Result Exception (List CheckResult) × MemoryIntegrityCheck W × MessageBus S
    on_tick tick c bus =
        if tick.due then (let (r, c') = sweep tick.now c in (r, c', bus)) else (returned [], c, bus)

    abbrev pub check : {S : Type 0} → Check S (MemoryIntegrityCheck W)
    check = record {
      check_id = check_id;
      base = λ c. c.base;
      with_base = λ c b. record c { base = b };
      on_tick = on_tick;
      base-with_base = λ c b. refl;
    }
