-- ===== src/Autofs/Create.antt =====
-- `AutoMkcolFs` in src/autofs.rs: parents made on demand, and atomic files opened.
pub mod Temp
pub mod Opening
use web_davs_zk.Common.{
  ℕ, zero, suc, ◌+◌, ◌-◌, ◌*◌, ◌%◌, ◌^◌, Bool, true, false, Option, none, some, List, ◌++◌, ◌&&◌,
  not, ltb, ◌==◌, nat_eq, if◌then◌else◌,
}
use mathlib.Core.Option
use web_davs_zk.Common.Text.{Text, text, show}
use web_davs_zk.Io.{Os, IoError, Result, ok, err, is_already_exists}
use web_davs_zk.Io.Paths.{join, parent, file_name, same_path}
use web_davs_zk.Autofs.Upload.{
  AtomicFile, FsError, FsResult, done, failed, exists, forbidden, insufficient_storage, from_io,
  map_err, new,
}

pub record OpenOptions : Type 0 where
  pub write : Bool
  pub create : Bool
  pub create_new : Bool
  pub truncate : Bool
  pub size : Option ℕ
  pub checksum : Option Text

pub record AutoMkcolFs : Type 0 where
  pub root : Text
  pub create_parents : Bool
  pub atomic_writes : Bool
  pub fsync : Bool

-- `AutoMkcolFs::new`; the `LocalFs` that it makes as well is in `DavServer`.
abbrev new_fs : Text → Bool → Bool → Bool → AutoMkcolFs
new_fs root create_parents atomic_writes fsync = record {
  root = root;
  create_parents = create_parents;
  atomic_writes = atomic_writes;
  fsync = fsync;
}

-- What the `dav_server` crate does: its paths, and the file system that the wrapper falls back to.
pub record DavServer (os : Os) : Type 1 where
  pub DavPath : Type 0
  pub as_rel_ospath : DavPath → Text
  pub parent_path : DavPath → DavPath
  pub DavFile : Type 0
  pub open_inner : DavPath → OpenOptions → os.State → FsResult DavFile × os.State
  pub create_dir_inner : DavPath → os.State → FsResult (Unit {0}) × os.State
  pub ReadDirMeta : Type 0
  pub DirEntries : Type 0
  pub DavMetaData : Type 0
  pub read_dir_inner : DavPath → ReadDirMeta → os.State → FsResult DirEntries × os.State
  pub metadata_inner : DavPath → os.State → FsResult DavMetaData × os.State
  pub symlink_metadata_inner : DavPath → os.State → FsResult DavMetaData × os.State
  pub remove_dir_inner : DavPath → os.State → FsResult (Unit {0}) × os.State
  pub remove_file_inner : DavPath → os.State → FsResult (Unit {0}) × os.State
  pub rename_inner : DavPath → DavPath → os.State → FsResult (Unit {0}) × os.State
  pub copy_inner : DavPath → DavPath → os.State → FsResult (Unit {0}) × os.State

pub data Opened (DavFile : Type 0) : Type 0 where
  atomic : AtomicFile → Opened DavFile
  inner : DavFile → Opened DavFile

module _ (os : Os) where
  unfoldable pub free_space : Text → os.State → Result ℕ
  free_space dir s = elim (os.statvfs dir s) [
    | err e ↦ err e
    | ok st ↦
        let frsize = if ltb 0 st.f_frsize then st.f_frsize else st.f_bsize in
        ok (st.f_bavail * frsize % 2 ^ 64)
  ]

  -- The candidate of round `i`.
  unfoldable pub temp_candidate : Text → Text → ℕ → Text
  temp_candidate dir name i =
      let base = join dir (name ++ text ".uploading.nzk_webdavs") in
      if i == 0 then base else join dir (name ++ (text ".uploading.nzk_webdavs." ++ show i))

  -- The loop of `create_temp`, with the rounds that are left; it ends at round 16.
  unfoldable pub try_temps : ℕ → ℕ → Text → Text → os.State → FsResult (Text × ℕ) × os.State
  unfolding temp_candidate
  try_temps zero i dir name s = (failed exists, s)
  try_temps (suc left) i dir name s =
      let temp = temp_candidate dir name i in
      let (r, s') = os.create_new temp s in
      elim r [
        | ok handle ↦ (done (temp, handle), s')
        | err e ↦
            let next = try_temps left (i + 1) dir name s' in
            if is_already_exists e then next else (failed (from_io e), s')
      ]

  unfoldable pub create_temp : Text → Text → os.State → FsResult (Text × ℕ) × os.State
  unfolding try_temps
  create_temp dir target s = try_temps 16 0 dir (Option.get_or (file_name target) (text "file")) s

  module _ (fs : AutoMkcolFs) (dav : DavServer os) where
    open dav use {DavPath, as_rel_ospath, parent_path, DavFile, open_inner, create_dir_inner}

    unfoldable pub fspath : DavPath → Text
    fspath path = join fs.root (as_rel_ospath path)

    abbrev map_fst : Result (Unit {0}) × os.State → FsResult (Unit {0}) × os.State
    map_fst (r, s) = (map_err r, s)

    unfoldable pub ensure_parent : DavPath → os.State → FsResult (Unit {0}) × os.State
    ensure_parent path s =
        let p = join fs.root (as_rel_ospath (parent_path path)) in
        if not fs.create_parents
        then (done tt, s)
        else if same_path p fs.root
        then (done tt, s)
        else map_fst (os.create_dir_all p s)

    -- The size is known, and the file system says that it has less room.
    abbrev is_too_big : Option ℕ → Result ℕ → Bool
    is_too_big (some size) (ok free) = ltb free size
    is_too_big _ _ = false

    abbrev wrap_temp :
        OpenOptions → Text → FsResult (Text × ℕ) × os.State → FsResult (Opened DavFile) × os.State
    wrap_temp options target (failed e, s) = (failed e, s)
    wrap_temp options target (done (temp, handle), s) =
        (done (atomic (new temp target options.size options.checksum handle fs.fsync)), s)

    -- The branch of `open` for atomic writes.
    open_atomic : DavPath → OpenOptions → os.State → FsResult (Opened DavFile) × os.State
    open_atomic path options s =
        let target = fspath path in
        let dir = Option.get_or (parent target) fs.root in
        if options.create_new && os.exists target s
        then (failed exists, s)
        else if os.is_dir target s
        then (failed forbidden, s)
        else if is_too_big options.size (free_space dir s)
        then (failed insufficient_storage, s)
        else wrap_temp options target (create_temp dir target s)

    abbrev wrap_inner : FsResult DavFile × os.State → FsResult (Opened DavFile) × os.State
    wrap_inner (failed e, s) = (failed e, s)
    wrap_inner (done file, s) = (done (inner file), s)

    abbrev after_parent :
        DavPath
        → OpenOptions
        → FsResult (Unit {0}) × os.State
        → FsResult (Opened DavFile) × os.State
    after_parent path options (failed e, s) = (failed e, s)
    after_parent path options (done _, s) =
        if fs.atomic_writes && options.write && options.create && options.truncate
        then open_atomic path options s
        else wrap_inner (open_inner path options s)

    unfoldable pub open_file :
        DavPath → OpenOptions → os.State → FsResult (Opened DavFile) × os.State
    unfolding open_atomic ensure_parent create_temp fspath free_space
    open_file path options s =
        after_parent path options
          (if options.write && options.create then ensure_parent path s else (done tt, s))

    abbrev create_after : DavPath → FsResult (Unit {0}) × os.State → FsResult (Unit {0}) × os.State
    create_after path (failed e, s) = (failed e, s)
    create_after path (done _, s) = create_dir_inner path s

    unfoldable pub create_dir : DavPath → os.State → FsResult (Unit {0}) × os.State
    unfolding ensure_parent
    create_dir path s = create_after path (ensure_parent path s)

    -- The methods that pass a call on to the `LocalFs` of the crate.
    abbrev read_dir : DavPath → dav.ReadDirMeta → os.State → FsResult dav.DirEntries × os.State
    read_dir path meta s = dav.read_dir_inner path meta s

    abbrev metadata : DavPath → os.State → FsResult dav.DavMetaData × os.State
    metadata path s = dav.metadata_inner path s

    abbrev symlink_metadata : DavPath → os.State → FsResult dav.DavMetaData × os.State
    symlink_metadata path s = dav.symlink_metadata_inner path s

    abbrev remove_dir : DavPath → os.State → FsResult (Unit {0}) × os.State
    remove_dir path s = dav.remove_dir_inner path s

    abbrev remove_file : DavPath → os.State → FsResult (Unit {0}) × os.State
    remove_file path s = dav.remove_file_inner path s

    abbrev rename : DavPath → DavPath → os.State → FsResult (Unit {0}) × os.State
    rename from to s = dav.rename_inner from to s

    abbrev copy : DavPath → DavPath → os.State → FsResult (Unit {0}) × os.State
    copy from to s = dav.copy_inner from to s
