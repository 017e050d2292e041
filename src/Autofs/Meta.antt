-- ===== src/Autofs/Meta.antt =====
-- `LocalMeta` of src/autofs.rs: what is said of a file that is being uploaded, on Unix.
use web_davs_zk.Common.{ℕ, ◌-◌, ◌/◌, ◌%◌, ◌^◌, Bool, ◌==◌, nat_eq, if◌then◌else◌}
use web_davs_zk.Common.Int.{ℤ, pos, negsuc}
use web_davs_zk.Io.{Result}
use web_davs_zk.Autofs.Upload.{FsResult, done, failed, not_implemented, map_err}

-- `SystemTime`: whole seconds and nanoseconds since the epoch.
record SystemTime : Type 0 where
  seconds : ℤ
  nanos : ℕ

-- `std::fs::Metadata` and its extensions for Unix, as far as they are read.
record StdMetadata : Type 0 where
  len : ℕ
  modified : Result SystemTime
  is_dir : Bool
  is_file : Bool
  is_symlink : Bool
  accessed : Result SystemTime
  created : Result SystemTime
  ctime : ℤ
  mode : ℕ

-- `as u64` on an i64
abbrev as_u64 : ℤ → ℕ
as_u64 (pos n) = n % 2 ^ 64
as_u64 (negsuc n) = 2 ^ 64 - 1 - n % 2 ^ 64

-- `LocalMeta`, a wrapper of one field.
abbrev LocalMeta : Type 0
LocalMeta = StdMetadata

abbrev len : LocalMeta → ℕ
len m = m.len

abbrev modified : LocalMeta → FsResult SystemTime
modified m = map_err m.modified

abbrev is_dir : LocalMeta → Bool
is_dir m = m.is_dir

abbrev is_file : LocalMeta → Bool
is_file m = m.is_file

abbrev is_symlink : LocalMeta → Bool
is_symlink m = m.is_symlink

abbrev accessed : LocalMeta → FsResult SystemTime
accessed m = map_err m.accessed

abbrev created : LocalMeta → FsResult SystemTime
created m = map_err m.created

abbrev status_changed : LocalMeta → FsResult SystemTime
status_changed m = done (record { seconds = pos (as_u64 m.ctime); nanos = 0 })

-- The bit `0o100` of the mode.
abbrev executable : LocalMeta → FsResult Bool
executable m = if m.is_file then done (m.mode / 64 % 2 == 1) else failed not_implemented
