-- ===== src/Checks/Memory/Started.antt =====
-- The construction of memory_integrity.py's check by a configuration that obeys the rules.
use ca1_health_monitor.Prelude.{
  ◌<◌, ℤ, pos, ◌<ℤ◌, Bool, true, none, ◌≡◌, refl, arith, returned, pos_part, ap,
}
use ca1_health_monitor.Common.Timer.Cadence.{new_iff}
use ca1_health_monitor.Config.{MemoryCheckConfig}
use ca1_health_monitor.Config.Rules.{MemoryRules}
use ca1_health_monitor.Checks.Memory
use ca1_health_monitor.Checks.Memory.{MemoryIntegrityCheck}
use ca1_health_monitor.Checks.Memory.Sweep.{bad_pages}
use ca1_health_monitor.Checks.Memory.UnderWay.{IsUnderWay, page_count}

pos_of : (a : ℤ) → pos 0 <ℤ a → a ≡ pos (pos_part a)
pos_of a h = ground arith

some_page : (a : ℤ) → pos 0 <ℤ a → 0 < page_count (pos_part a)
some_page a h = omega (arith, h)

-- The check has the configuration and is at the start of the pass with the number 0.
pub record IsStarted {M : Type 0} (config : MemoryCheckConfig) (c : MemoryIntegrityCheck M)
    : Type 0 where
  pub configured : c.config ≡ config
  pub first : c.pass_index ≡ 0
  pub unread : c.pages_this_pass ≡ 0
  pub unbased : c.baseline ≡ none
  pub ready : (good : ℤ → ℤ → Bool) → IsUnderWay good (pos_part config.region_bytes) c

pub memory_new :
    {M : Type 0} (config : MemoryCheckConfig) (platform : M) (clock : ℤ)
    → MemoryRules config
    → (c : MemoryIntegrityCheck M) × (Memory.new config platform clock ≡ returned c)
      × IsStarted config c
unfolding Memory.new bad_pages
memory_new config platform clock rules =
    let (timer, built) =
      (new_iff config.scan_period_s clock "ram-sweep" true none).1 (rules.0, tt) in
    let c = Memory.assembled config platform timer in
    (
      c,
      rw built refl,
      record {
        configured = refl;
        first = refl;
        unread = refl;
        unbased = refl;
        ready = λ good. record {
          swept = record {
            region_bytes = pos_of config.region_bytes rules.3;
            cursor = ap pos (ground arith);
            within = omega arith;
            mismatches = refl;
          };
          within = some_page config.region_bytes rules.3;
          slice = omega (arith, rules);
        };
      },
    )
