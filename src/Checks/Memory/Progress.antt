-- ===== src/Checks/Memory/Progress.antt =====
-- Many due ticks of memory_integrity.py in a row: `on_tick` over a source that answers ends each
-- pass.
use ca1_health_monitor.Prelude.{
  ℕ, ◌+◌, ◌≤◌, ◌<◌, ℤ, Bool, List, [], ◌∷◌, ◌++◌, length, ◌≡◌, inl, inr, arith, refl, returned, ap,
  ◌∙◌,
}
use ca1_health_monitor.Common.Types.{CheckResult}
use ca1_health_monitor.Checks.Memory.{MemorySource, MemoryIntegrityCheck, M, bind}
use ca1_health_monitor.Checks.Memory.Tick.{sweep}
use ca1_health_monitor.Checks.Memory.Sweep.{IsStable}
use ca1_health_monitor.Checks.Memory.UnderWay.{page_count, IsUnderWay}
use ca1_health_monitor.Checks.Memory.Passes.{sweep_lem}

-- Due ticks at these times, and all that they report.
unfoldable pub sweeps : {W : Type 0} → MemorySource W → List ℤ → M W (List CheckResult)
sweeps source [] c = (returned [], c)
sweeps source (t ∷ ts) c =
    bind (sweep source t) (λ rs. bind (sweeps source ts) (λ rest c'. (returned (rs ++ rest), c'))) c

module _ {W : Type 0} (source : MemorySource W) (good : ℤ → ℤ → Bool)
    (stable : IsStable source good) (region : ℕ) where
  -- Over a source that answers and whose pages stay as they are, any number of due ticks from a
  -- pass under way returns and leaves a pass under way; there are as many results as passes ended;
  -- and as many ticks as the pass has pages left are enough for a result.
  pub sweeps_lem :
      (times : List ℤ) (c : MemoryIntegrityCheck W)
      → IsUnderWay good region c
      → (d : MemoryIntegrityCheck W) × (rs : List CheckResult) × (sweeps source times c
          ≡ (returned rs, d))
        × IsUnderWay good region d
        × (d.pass_index ≡ c.pass_index + length rs)
        × (page_count region ≤ c.pages_this_pass + length times → 0 < length rs)
  unfolding sweeps
  sweeps_lem [] c u = (c, [], refl, u, omega arith, λ h. absurd (omega (arith, h, u.within)))
  sweeps_lem (t ∷ ts) c u =
      let (d, rs, run, u', _, _, how) = sweep_lem source good stable region t c u in
      let (e, rest, runs, v, index, enough) = sweeps_lem ts d u' in
      (
        e,
        rs ++ rest,
        rw (run, runs) refl,
        v,
        elim how [
          | inl (none_, more, same_pass) ↦ rw none_ (index ∙ ap (λ n. n + length rest) same_pass)
          | inr (r, _, _, _, _, _, _, one, _, _, _, _, next) ↦ rw one (omega (arith, index, next))
        ],
        elim how [
          | inl (none_, more, _) ↦ λ h. rw none_ (enough (omega (arith, more, h)))
          | inr (r, _, _, _, _, _, _, one, _, _, _, _, next) ↦ λ _. rw one (omega arith)
        ],
      )
