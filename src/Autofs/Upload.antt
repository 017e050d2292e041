-- ===== src/Autofs/Upload.antt =====
-- `AtomicFile` in src/autofs.rs. A method returns its result, the file and the file system.
pub mod Commit
pub mod Session
pub mod Body
pub mod Chunks
pub mod Files
pub mod Sending
pub mod Settling
pub mod Atomic
use mathlib.Core.Option
use web_davs_zk.Common.{
  ℕ, zero, suc, ◌+◌, ◌%◌, ◌^◌, Bool, true, false, Option, none, some, List, [], ◌∷◌, ◌++◌, ◌&&◌,
  ◌==◌, nat_eq, list_eq, length, take, drop, not, if◌then◌else◌,
}
use web_davs_zk.Common.Text.{Text, text}
use web_davs_zk.Common.Text.Trim.{trim, eq_ignore_ascii_case}
use web_davs_zk.Common.Text.Split.{split_once}
use web_davs_zk.Io.{SeekFrom, Os, IoError, Result, ok, err, ErrorKind, other_kind, Metadata}

pub data FsError : Type 0 where
  general_failure exists forbidden insufficient_storage not_implemented : FsError
  -- `FsError::from(&e)`, which the `dav_server` crate defines
  from_io : IoError → FsError

pub data FsResult {ℓ} (A : Type ℓ) : Type ℓ where
  done : A → FsResult A
  failed : FsError → FsResult A

abbrev pub map_err {ℓ} : {A : Type ℓ} → Result A → FsResult A
map_err (ok a) = done a
map_err (err e) = failed (from_io e)

-- What the `sha2`, `hex` and `base64` crates do. A hasher is the list of the bytes it has taken.
pub record Hashing : Type 0 where
  pub sha256 : List ℕ → List ℕ
  pub hex_encode : List ℕ → Text
  pub hex_decode : Text → Option (List ℕ)
  pub base64_decode : Text → Option (List ℕ)

pub record AtomicFile : Type 0 where
  pub file : Option ℕ
  pub temp_path : Text
  pub target_path : Text
  pub expected_size : Option ℕ
  pub written : ℕ
  pub committed : Bool
  pub fsync : Bool
  pub hasher : List ℕ
  pub expected_checksum : Option Text

abbrev pub new : Text → Text → Option ℕ → Option Text → ℕ → Bool → AtomicFile
new temp_path target_path expected_size expected_checksum file fsync = record {
  file = some file;
  temp_path = temp_path;
  target_path = target_path;
  expected_size = expected_size;
  written = 0;
  committed = false;
  fsync = fsync;
  hasher = [];
  expected_checksum = expected_checksum;
}

-- `+=` on u64
abbrev pub add_u64 : ℕ → ℕ → ℕ
add_u64 a b = (a + b) % 2 ^ 64

-- `remaining`
abbrev pub total : List (List ℕ) → ℕ
total [] = 0
total (chunk ∷ chunks) = length chunk + total chunks

module _ (h : Hashing) where
  open h use {sha256, hex_encode, hex_decode, base64_decode}

  abbrev decode_value : Text → Option (List ℕ)
  decode_value val = elim (hex_decode val) [ some bytes ↦ some bytes | none ↦ base64_decode val ]

  unfoldable pub parse_sha256_checksum : Text → Option (List ℕ)
  parse_sha256_checksum raw = elim (split_once b':' (trim raw)) [
    | none ↦ none
    | some (alg, val) ↦
        if eq_ignore_ascii_case alg (text "sha256") then decode_value (trim val) else none
  ]

  abbrev pub expected_digest : Option Text → Option (List ℕ)
  expected_digest none = none
  expected_digest (some ck) = parse_sha256_checksum ck

  abbrev differs : List ℕ → Option (List ℕ) → Bool
  differs hasher none = false
  differs hasher (some expected) = not (expected == sha256 hasher)

  -- The checksum that the client sent, if it is one that is verified, is not that of the bytes.
  unfoldable pub is_mismatch : AtomicFile → Bool
  is_mismatch f = differs f.hasher (expected_digest f.expected_checksum)

  -- All of the body has arrived, or its length is not known.
  unfoldable pub should_commit : AtomicFile → Bool
  should_commit f = elim f.expected_size [ none ↦ true | some size ↦ f.written == size ]

module _ (h : Hashing) (os : Os) where
  abbrev pub Method : Type 0 → Type 0
  Method A = AtomicFile → os.State → FsResult A × AtomicFile × os.State

  abbrev pub sync : Bool → Option ℕ → os.State → Result (Unit {0}) × os.State
  sync true (some handle) s = os.sync_data handle s
  sync _ _ s = (ok tt, s)

  abbrev pub publish :
      Bool → Text → Text → Result (Unit {0}) × os.State → Result (Unit {0}) × os.State
  publish should temp target (err e, s) = (err e, s)
  publish should temp target (ok _, s) = if should then os.rename temp target s else (ok tt, s)

  -- From `if res.is_ok()` on.
  abbrev pub settle :
      Bool → AtomicFile → Result (Unit {0}) × os.State → FsResult (Unit {0}) × AtomicFile × os.State
  settle should f (err e, s) = (failed (from_io e), f, s)
  settle should f (ok _, s) = (
    done tt,
    record f { committed = should },
    if should
        then os.set_xattr f.target_path (text "user.nzk_webdavs.sha256")
            (h.hex_encode (h.sha256 f.hasher)) s
        else s,
  )

  unfoldable pub commit : Method (Unit {0})
  commit f s =
      let should = should_commit h f in
      let moved = publish should f.temp_path f.target_path (sync f.fsync f.file s) in
      if f.committed
      then (done tt, f, s)
      else if is_mismatch h f
      then (failed general_failure, f, s)
      else settle should (record f { file = none }) moved

  unfoldable pub flush : Method (Unit {0})
  unfolding commit
  flush = commit

  abbrev stat :
      FsResult (Unit {0}) × AtomicFile × os.State → FsResult Metadata × AtomicFile × os.State
  stat (failed e, f, s) = (failed e, f, s)
  stat (done _, f, s) =
      (map_err (os.metadata (if f.committed then f.target_path else f.temp_path) s), f, s)

  unfoldable pub metadata : Method Metadata
  unfolding commit
  metadata f s = stat (commit f s)

  abbrev put_back :
      {A : Type 0} → AtomicFile → ℕ → Result A × os.State → FsResult A × AtomicFile × os.State
  put_back f handle (r, s) = (map_err r, record f { file = some handle }, s)

  unfoldable pub write_bytes : List ℕ → Method (Unit {0})
  write_bytes buf f s =
      let hashed = record f { hasher = f.hasher ++ buf } in
      elim f.file [
        | none ↦ (failed general_failure, hashed, s)
        | some handle ↦
            put_back (record hashed { written = add_u64 f.written (length buf) }) handle
              (os.write_all handle buf s)
      ]

  abbrev pub write_error : Text → IoError
  write_error message = record { kind = other_kind; raw_os_error = none; message = message }

  -- The loop of `write_buf` over the chunks that the buffer still holds; `chunk` never is an empty
  -- one. Each turn takes a byte at least, so the bytes of the buffer are fuel enough.
  unfoldable pub write_chunks :
      ℕ → ℕ → List (List ℕ) → List ℕ → os.State → Result (Unit {0}) × List ℕ × os.State
  write_chunks fuel handle [] hasher s = (ok tt, hasher, s)
  write_chunks fuel handle ([] ∷ chunks) hasher s = write_chunks fuel handle chunks hasher s
  write_chunks zero handle ((b ∷ bs) ∷ chunks) hasher s = (err (write_error []), hasher, s)
  write_chunks (suc fuel) handle ((b ∷ bs) ∷ chunks) hasher s =
      let (r, s') = os.write handle (b ∷ bs) s in
      elim r [
        | err e ↦ (err e, hasher, s')
        | ok zero ↦ (err (write_error (text "write returned 0 bytes")), hasher, s')
        | ok (suc n) ↦ write_chunks fuel handle (drop n bs ∷ chunks) (hasher ++ (b ∷ take n bs)) s'
      ]

  abbrev put_hashed :
      AtomicFile
      → ℕ
      → Result (Unit {0}) × List ℕ × os.State
      → FsResult (Unit {0}) × AtomicFile × os.State
  put_hashed f handle (r, hasher, s) =
      (map_err r, record f { file = some handle; hasher = hasher }, s)

  unfoldable pub write_buf : List (List ℕ) → Method (Unit {0})
  unfolding write_chunks
  write_buf buf f s = elim f.file [
    | none ↦ (failed general_failure, f, s)
    | some handle ↦
        let remaining = total buf in
        put_hashed (record f { written = add_u64 f.written remaining }) handle
          (write_chunks remaining handle buf f.hasher s)
  ]

  unfoldable pub read_bytes : ℕ → Method (List ℕ)
  read_bytes count f s = elim f.file [
    | none ↦ (failed general_failure, f, s)
    | some handle ↦ put_back f handle (os.read handle count s)
  ]

  unfoldable pub seek : SeekFrom → Method ℕ
  seek pos f s = elim f.file [
    | none ↦ (failed general_failure, f, s)
    | some handle ↦ put_back f handle (os.seek handle pos s)
  ]

  -- `drop`: the temporary file goes unless it was published.
  unfoldable pub drop_file : AtomicFile → os.State → os.State
  drop_file f s = if f.committed then s else (os.remove_file f.temp_path s).1
