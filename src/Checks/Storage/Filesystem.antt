-- ===== src/Checks/Storage/Filesystem.antt =====
-- `FilesystemProbe` of storage_health.py. The calls of the operating system and of its file objects
-- are a parameter, on a state `W` of the machine; each may fail with an `OSError`.
use ca1_health_monitor.Prelude.{
  ℕ, suc, ◌*◌, ◌/◌, ℤ, pos, negsuc, ◌-ℤ◌, sub_ℕ, pos_part, leb_ℤ, String, true, false, Option, none,
  some, [], ◌∷◌, Result, raised, returned, if◌then◌else◌,
}
use ca1_health_monitor.Prelude.Text.{concat, same}
use ca1_health_monitor.Common.Types.{Exception, other_error}
use ca1_health_monitor.Checks.Storage.{MountProbe, StorageProbe}

-- `errno` is 0 where the exception has none; `text` is `str(exc)`.
pub record OsError : Type 0 where
  pub errno : ℕ
  pub strerror : String
  pub text : String

pub record Usage : Type 0 where
  pub total : ℕ
  pub free : ℕ

pub record Os (W : Type 0) : Type 0 where
  pub disk_usage : String → W → Result OsError Usage × W
  pub mkstemp : String → W → Result OsError (ℕ × String) × W
  pub fdopen : ℕ → W → Result OsError ℕ × W
  pub write : ℕ → ℕ → W → Result OsError (Unit {0}) × W
  pub flush : ℕ → W → Result OsError (Unit {0}) × W
  pub fsync : ℕ → W → Result OsError (Unit {0}) × W
  pub close : ℕ → W → Result OsError (Unit {0}) × W
  pub unlink : String → W → Result OsError (Unit {0}) × W
  pub strerror : ℕ → String
  pub latency_clock : W → ℤ × W

-- `usage.free / (usage.total or 1)`, in whole millionths
abbrev pub free_fraction : Usage → ℤ
free_fraction u = pos (1_000_000 * u.free / (if same u.total 0 then 1 else u.total))

-- Seconds as milliseconds, both in millionths.
abbrev pub in_milliseconds : ℤ → ℤ
in_milliseconds (pos n) = pos (1000 * n)
in_milliseconds (negsuc n) = sub_ℕ 0 (1000 * suc n)

-- `max(1, write_bytes)`
abbrev pub payload_length : ℤ → ℕ
payload_length n = if leb_ℤ n (pos 1) then 1 else pos_part n

-- The two `return`s for a failure.
unfoldable pub unusable : String → OsError → MountProbe
unfolding concat
unusable mount e = record {
  mount = mount;
  succeeded = false;
  free_fraction = pos 0;
  total_bytes = pos 0;
  write_latency_ms = pos 0;
  error = concat ("statvfs: " ∷ e.strerror ∷ []);
}

-- The numbers are those of Linux: 30 is EROFS, and 28 is ENOSPC.
unfoldable pub detail_of : (ℕ → String) → OsError → String
detail_of strerror e =
    if same e.errno 30
    then "filesystem is read-only"
    else if same e.errno 28
    then "no space left on device"
    else if same e.errno 0
    then e.text
    else strerror e.errno

unfoldable pub unwritable : (ℕ → String) → String → Usage → OsError → MountProbe
unfolding concat detail_of
unwritable strerror mount usage e = record {
  mount = mount;
  succeeded = false;
  free_fraction = free_fraction usage;
  total_bytes = pos usage.total;
  write_latency_ms = pos 0;
  error = concat ("write probe: " ∷ detail_of strerror e ∷ []);
}

-- What `handle` and `path` hold when the `try` block is left.
pub record Opened : Type 0 where
  pub handle : Option ℕ
  pub path : Option String

module _ {W : Type 0} where
  -- The rest of a block after a call: what follows where it returned, and where it raised.
  abbrev pub after : {A R : Type 0} → Result OsError A × W → (A → W → R) → (OsError → W → R) → R
  after (raised e, w) f g = g e w
  after (returned a, w) f g = f a w

abbrev pub Tried : Type 0 → Type 0
Tried W = Result OsError (Unit {0}) × Opened × W

module _ {W : Type 0} (os : Os W) where
  -- The `try` block once the file is open.
  unfoldable pub fill : ℕ → ℕ → Opened → W → Tried W
  fill handle bytes opened w =
      let failed : OsError → W → Tried W = λ e w. (raised e, opened, w) in
      after (os.write handle bytes w)
        (λ _ w.
          after (os.flush handle w)
            (λ _ w. after (os.fsync handle w) (λ _ w. (returned tt, opened, w)) failed) failed)
        failed

  -- The `try` block.
  unfoldable pub try_write : String → ℕ → W → Tried W
  unfolding fill
  try_write mount bytes w =
      after (os.mkstemp mount w)
        (λ (fd, path) w.
          after (os.fdopen fd w)
            (λ handle w. fill handle bytes (record { handle = some handle; path = some path }) w)
            (λ e w. (raised e, record { handle = none; path = some path }, w)))
        (λ e w. (raised e, record { handle = none; path = none }, w))

  -- The `finally` block: an error of `close` leaves it, and one of `unlink` goes to the log.
  abbrev pub close_handle : Option ℕ → W → Result OsError (Unit {0}) × W
  close_handle none w = (returned tt, w)
  close_handle (some handle) w = os.close handle w

  abbrev pub remove : Option String → W → W
  remove none w = w
  remove (some path) w = (os.unlink path w).1

  unfoldable pub clean_up : Opened → W → Result OsError (Unit {0}) × W
  clean_up opened w =
      after (close_handle opened.handle w) (λ _ w. (returned tt, remove opened.path w))
        (λ e w. (raised e, w))

  -- What `probe` returns after the `finally` block, by how the `try` block ended.
  abbrev pub observed :
      String → Usage → ℤ → Result OsError (Unit {0}) → W → Result Exception MountProbe × W
  observed mount usage started (raised e) w = (returned (unwritable os.strerror mount usage e), w)
  observed mount usage started (returned done) w =
      let (now, w) = os.latency_clock w in
      (
        returned (record {
          mount = mount;
          succeeded = true;
          free_fraction = free_fraction usage;
          total_bytes = pos usage.total;
          write_latency_ms = in_milliseconds (now -ℤ started);
          error = "";
        }),
        w,
      )

  -- The rest of `probe` once the usage is known.
  unfoldable pub write_probe : String → ℤ → Usage → W → Result Exception MountProbe × W
  write_probe mount write_bytes usage w =
      let (started, w) = os.latency_clock w in
      let (outcome, opened, w) = try_write mount (payload_length write_bytes) w in
      after (clean_up opened w) (λ _ w. observed mount usage started outcome w)
        (λ e w. (raised other_error, w))

  -- `FilesystemProbe.probe`
  unfoldable pub probe : StorageProbe W
  unfolding write_probe
  probe mount write_bytes w =
      after (os.disk_usage mount w) (write_probe mount write_bytes)
        (λ e w. (returned (unusable mount e), w))
