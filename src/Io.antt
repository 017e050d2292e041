-- ===== src/Io.antt =====
-- The operating system, as the program calls it through `std::fs`. Every call is a parameter: a
-- development that uses one takes an `Os`, and names what it relies on as hypotheses.
pub mod Paths
use web_davs_zk.Common.{
  ℕ, ◌≡◌, ◌⊎◌, inl, inr, refl, Bool, true, false, Option, none, some, List, [], ◌∷◌, ◌++◌,
}
use web_davs_zk.Common.Int.{ℤ}
use web_davs_zk.Common.Text.{Text}

pub data ErrorKind : Type 0 where
  permission_denied crosses_devices already_exists not_found other_kind : ErrorKind

-- `std::io::Error`, with what `raw_os_error` and `to_string` give.
pub record IoError : Type 0 where
  pub kind : ErrorKind
  pub raw_os_error : Option ℕ
  pub message : Text

pub data Result {ℓ} (A : Type ℓ) : Type ℓ where
  ok : A → Result A
  err : IoError → Result A

-- `.flatten()` over results
abbrev pub flatten : List (Result Text) → List Text
flatten [] = []
flatten (ok t ∷ rs) = t ∷ flatten rs
flatten (err _ ∷ rs) = flatten rs

abbrev pub is_ok {ℓ} : {A : Type ℓ} → Result A → Bool
is_ok (ok _) = true
is_ok (err _) = false

pub Result-forms {ℓ} :
    {A : Type ℓ} (r : Result A) → ((a : A) × (r ≡ ok a)) ⊎ ((e : IoError) × (r ≡ err e))
Result-forms (ok a) = inl (a, refl)
Result-forms (err e) = inr (e, refl)

-- The result of a call, and the state that it leaves.
pub Result-cases {ℓ ℓ'} :
    {A : Type ℓ} {S : Type ℓ'} (w : Result A × S)
    → ((a : A) × (s : S) × (w ≡ (ok a, s))) ⊎ ((e : IoError) × (s : S) × (w ≡ (err e, s)))
Result-cases (ok a, s) = inl (a, s, refl)
Result-cases (err e, s) = inr (e, s, refl)

abbrev pub is_permission_denied : IoError → Bool
is_permission_denied e = elim e.kind [ permission_denied ↦ true | _ ↦ false ]

abbrev pub is_crosses_devices : IoError → Bool
is_crosses_devices e = elim e.kind [ crosses_devices ↦ true | _ ↦ false ]

abbrev pub is_already_exists : IoError → Bool
is_already_exists e = elim e.kind [ already_exists ↦ true | _ ↦ false ]

pub record Metadata : Type 0 where
  pub is_dir : Bool
  pub is_symlink : Bool
  pub len : ℕ
  -- seconds since the epoch, if the time is known and not before it
  pub mtime : Option ℕ

-- `std::io::SeekFrom`
pub data SeekFrom : Type 0 where
  start : ℕ → SeekFrom
  end current : ℤ → SeekFrom

-- The fields of `struct statvfs` that are read.
pub record Statvfs : Type 0 where
  pub f_bavail : ℕ
  pub f_frsize : ℕ
  pub f_bsize : ℕ

pub record Os : Type 1 where
  pub State : Type 0
  -- `Path::is_dir`, `exists` and `is_file` follow symbolic links, `is_symlink` does not.
  pub is_dir : Text → State → Bool
  pub exists : Text → State → Bool
  pub is_file : Text → State → Bool
  pub is_symlink : Text → State → Bool
  pub symlink_metadata : Text → State → Result Metadata
  pub canonicalize : Text → State → Result Text
  -- the names of the entries, in the order of the directory
  pub read_dir : Text → State → Result (List (Result Text))
  -- `DirEntry::file_type` of an entry at this path is a directory; links are not followed
  pub entry_is_dir : Text → State → Bool
  pub create_dir_all : Text → State → Result (Unit {0}) × State
  pub remove_file : Text → State → Result (Unit {0}) × State
  pub remove_dir : Text → State → Result (Unit {0}) × State
  pub remove_dir_all : Text → State → Result (Unit {0}) × State
  pub rename : Text → Text → State → Result (Unit {0}) × State
  -- `File::open`, with what the later calls of `read` return, up to the end of the file
  pub open_read : Text → State → Result (List (Result (List ℕ))) × State
  -- `File::create`; a handle is a number
  pub create : Text → State → Result ℕ × State
  -- `OpenOptions::new().write(true).create_new(true)`
  pub create_new : Text → State → Result ℕ × State
  -- `metadata().permissions()` of the file at the path, opened for reading
  pub permissions : Text → State → Result ℕ
  pub set_permissions : ℕ → ℕ → State → State
  pub write_all : ℕ → List ℕ → State → Result (Unit {0}) × State
  pub flush : ℕ → State → Result (Unit {0}) × State
  -- `std::fs::write`
  pub write_file : Text → Text → State → Result (Unit {0}) × State
  -- `std::fs::set_permissions` to a mode
  pub set_mode : Text → ℕ → State → Result (Unit {0}) × State
  -- `std::fs::read`, for the files that a reader takes whole
  pub read_file : Text → State → Result Text
  -- `Write::write` and `Read::read` on a handle; `write` returns how many bytes it took
  pub write : ℕ → List ℕ → State → Result ℕ × State
  pub read : ℕ → ℕ → State → Result (List ℕ) × State
  pub seek : ℕ → SeekFrom → State → Result ℕ × State
  pub sync_data : ℕ → State → Result (Unit {0}) × State
  -- `std::fs::metadata`, which follows links
  pub metadata : Text → State → Result Metadata
  pub statvfs : Text → State → Result Statvfs
  -- `setxattr` with its result dropped: path, attribute, value
  pub set_xattr : Text → Text → Text → State → State

-- `read_dir` of the directory gives an entry of this name.
abbrev pub IsEntry : (os : Os) → os.State → Text → Text → Type 0
IsEntry os s dir name =
    (before : List (Result Text)) × (after : List (Result Text)) × (os.read_dir dir s
      ≡ ok (before ++ ok name ∷ after))
