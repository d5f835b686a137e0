-- ===== src/Checks/Memory/Detection.antt =====
-- How memory_integrity.py finds a page that is not as recorded: due ticks of `on_tick` over a source
-- that answers.
use ca1_health_monitor.Prelude.{
  ◌≤◌, length, pos_part, returned-injective, subst, sym, ℕ, zero, suc, ◌*◌, ◌<◌, ltb, All,
  All-append, ℤ, pos, ◌-ℤ◌, min_ℤ, Bool, false, List, [], ◌∷◌, ◌++◌, ◌≡◌, inl, inr, arith, refl,
  returned, Bool-cases, ◌∙◌,
}
use ca1_health_monitor.Common.Types.{CheckResult, fault}
use ca1_health_monitor.Config.{MemoryCheckConfig}
use ca1_health_monitor.Checks.Memory.{MemorySource, MemoryIntegrityCheck, page_bytes}
use ca1_health_monitor.Checks.Memory.Tick.{judge}
use ca1_health_monitor.Checks.Memory.Sweep.{IsStable, bad_pages}
use ca1_health_monitor.Checks.Memory.UnderWay.{page_count, IsUnderWay}
use ca1_health_monitor.Checks.Memory.Passes.{sweep_lem, HasEnded}
use ca1_health_monitor.Checks.Memory.Progress.{sweeps, sweeps_lem}
use ca1_health_monitor.Checks.Memory.Started.{memory_new}
use ca1_health_monitor.Config.Rules.{MemoryRules}
use ca1_health_monitor.Checks.Memory

-- The page with this number is in the region and is not as recorded.
abbrev pub IsCorrupt : (ℤ → ℤ → Bool) → ℕ → ℕ → Type 0
IsCorrupt good region p =
    (4096 * p < region)
    × (good (pos (4096 * p)) (min_ℤ page_bytes (pos region -ℤ pos (4096 * p))) ≡ false)

abbrev pub IsFault : CheckResult → Type 0
IsFault r = r.state ≡ fault

counted :
    (good : ℤ → ℤ → Bool) (region p n : ℕ)
    → IsCorrupt good region p
    → p < n
    → 0 < bad_pages good region n
unfolding bad_pages
counted good region p zero c h = absurd (omega (arith, h))
counted good region p (suc n) c h = elim (Bool-cases (ltb p n)) [
  | inl l ↦
      let h' : 0 < bad_pages good region n = counted good region p n c (ground arith) in
      ground arith
  | inr l ↦ let e : n ≡ p = ground arith in rw (e, c.1) (omega arith)
]

judge-mismatch :
    (config : MemoryCheckConfig) (n : ℕ) (a b : ℤ) → 0 < n → (judge config n a b).0 ≡ fault
unfolding judge
judge-mismatch config n a b h = ground arith

pub corrupt_page :
    (good : ℤ → ℤ → Bool) (region p : ℕ)
    → IsCorrupt good region p
    → 0 < bad_pages good region (page_count region)
corrupt_page good region p c =
    counted good region p (page_count region) c (let h : 4096 * p < region = c.0 in omega arith)

module _ {W : Type 0} (source : MemorySource W) (good : ℤ → ℤ → Bool)
    (stable : IsStable source good) (region : ℕ) where
  ended-IsFault :
      (c d : MemoryIntegrityCheck W) (rs : List CheckResult)
      → 0 < bad_pages good region (page_count region)
      → HasEnded source good stable region c d rs
      → All IsFault rs
  ended-IsFault c d rs h (r, _, a, b, _, _, _, one, state, _, _, _, _) =
      rw one (state ∙ judge-mismatch c.config (bad_pages good region (page_count region)) a b h, tt)

  pub sweeps-IsFault :
      (times : List ℤ) (c : MemoryIntegrityCheck W)
      → IsUnderWay good region c
      → 0 < bad_pages good region (page_count region)
      → (d : MemoryIntegrityCheck W) × (rs : List CheckResult) × (sweeps source times c
          ≡ (returned rs, d))
        × All IsFault rs
  unfolding sweeps
  sweeps-IsFault [] c u h = (c, [], refl, tt)
  sweeps-IsFault (t ∷ ts) c u h =
      let (d, rs, run, u', _, _, how) = sweep_lem source good stable region t c u in
      let (e, rest, runs, faults) = sweeps-IsFault ts d u' h in
      (
        e,
        rs ++ rest,
        rw (run, runs) refl,
        All-append IsFault rs rest
            (elim how [
              | inl (none_, _, _) ↦ rw none_ tt
              | inr ended ↦ ended-IsFault c d rs h ended
            ])
            faults,
      )

  -- A check constructed by a configuration that obeys the rules, over a source that answers and
  -- whose pages stay as they are, finds a page of the region that is not as recorded: any number of
  -- due ticks returns, every result is a fault, and as many ticks as the region has pages give one.
  pub new-detects :
      (config : MemoryCheckConfig) (platform : W) (clock : ℤ) (c : MemoryIntegrityCheck W) (p : ℕ)
      (times : List ℤ)
      → region ≡ pos_part config.region_bytes
      → MemoryRules config
      → Memory.new config platform clock ≡ returned c
      → IsCorrupt good region p
      → (d : MemoryIntegrityCheck W) × (rs : List CheckResult) × (sweeps source times c
          ≡ (returned rs, d))
        × All IsFault rs
        × (page_count region ≤ length times → 0 < length rs)
  new-detects config platform clock c p times size rules built bad =
      let (c', built', started) = memory_new config platform clock rules in
      let u : IsUnderWay good region c =
        subst (IsUnderWay good region) (returned-injective (sym built' ∙ built))
          (subst (λ n. IsUnderWay good n c') (sym size) (started.ready good)) in
      let (d, rs, run, faults) = sweeps-IsFault times c u (corrupt_page good region p bad) in
      let (_, rs', run', _, _, enough) = sweeps_lem source good stable region times c u in
      let same : rs ≡ rs' = cc in (d, rs, run, faults, λ h. rw same (enough (omega (arith, h))))
