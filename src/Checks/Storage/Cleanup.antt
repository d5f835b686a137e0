-- ===== src/Checks/Storage/Cleanup.antt =====
-- When `FilesystemProbe` of storage_health.py returns an observation, and when it raises.
use ca1_health_monitor.Prelude.{
  ℕ, ℤ, String, Option, some, none, ◌≡◌, refl, Result, raised, returned,
}
use ca1_health_monitor.Common.Types.{other_error}
use ca1_health_monitor.Checks.Storage.{MountProbe}
use ca1_health_monitor.Checks.Storage.Runs.{NeverRaises}
use ca1_health_monitor.Checks.Storage.Filesystem.{
  Os, OsError, Usage, payload_length, try_write, clean_up, close_handle, remove, observed, unusable,
  after, write_probe, probe,
}

module _ {W : Type 0} (os : Os W) where
  -- Closing a file does not fail.
  abbrev pub Closes : Type 0
  Closes = (handle : ℕ) (w : W) → (w' : W) × (os.close handle w ≡ (returned tt, w'))

  closed :
      Closes
      → (handle : Option ℕ) (w : W) → (w' : W) × (close_handle os handle w ≡ (returned tt, w'))
  closed closes none w = (w, refl)
  closed closes (some handle) w = closes handle w

  observed_lem :
      (mount : String) (usage : Usage) (started : ℤ) (outcome : Result OsError (Unit {0})) (w : W)
      → (o : MountProbe) × (w' : W) × (observed os mount usage started outcome w ≡ (returned o, w'))
  observed_lem mount usage started (raised e) w = (_, w, refl)
  observed_lem mount usage started (returned done) w = (_, _, refl)

  write_probe_returns :
      (mount : String) (bytes : ℤ) (usage : Usage) (w : W)
      → Closes
      → (o : MountProbe) × (w' : W) × (write_probe os mount bytes usage w ≡ (returned o, w'))
  unfolding write_probe clean_up
  write_probe_returns mount bytes usage w closes =
      let started = (os.latency_clock w).0 in
      let tried = try_write os mount (payload_length bytes) (os.latency_clock w).1 in
      let (w₁, e) = closed closes tried.1.handle tried.2 in
      let (o, w₂, f) = observed_lem mount usage started tried.0 (remove os tried.1.path w₁) in
      (o, w₂, rw e f)

  answers :
      Closes
      → (mount : String) (bytes : ℤ) (r : Result OsError Usage × W)
      → (o : MountProbe) × (w' : W) × (after r
            (write_probe os mount bytes)
            (λ e w. (returned (unusable mount e), w))
          ≡ (returned o, w'))
  answers closes mount bytes (raised e, w) = (unusable mount e, w, refl)
  answers closes mount bytes (returned usage, w) = write_probe_returns mount bytes usage w closes

  -- Where closing a file does not fail, the probe never raises, whatever else of the operating
  -- system's calls fails.
  pub probe-NeverRaises : Closes → NeverRaises (probe os)
  unfolding probe
  probe-NeverRaises closes mount bytes w = answers closes mount bytes (os.disk_usage mount w)

  -- Where closing the probe's file fails, the probe raises: the failure that it caught before, such
  -- as a full disk, is not reported, and the file stays.
  pub close_failure :
      (mount : String) (bytes : ℤ) (w w₁ w₂ w₃ : W) (usage : Usage)
      (outcome : Result OsError (Unit {0})) (handle : ℕ) (path : Option String) (e : OsError)
      → os.disk_usage mount w ≡ (returned usage, w₁)
      → try_write os mount (payload_length bytes) (os.latency_clock w₁).1
        ≡ (outcome, record { handle = some handle; path = path }, w₂)
      → os.close handle w₂ ≡ (raised e, w₃)
      → probe os mount bytes w ≡ (raised other_error, w₃)
  unfolding probe write_probe clean_up
  close_failure mount bytes w w₁ w₂ w₃ usage outcome handle path e du tried closing =
      rw (du, tried, closing) refl
