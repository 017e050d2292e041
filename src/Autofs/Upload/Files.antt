-- ===== src/Autofs/Upload/Files.antt =====
-- What uploads of src/autofs.rs rely on of the file system, and what they are to their readers.
use web_davs_zk.Common.{ℕ, ◌≡◌, ◌≢◌, Bool, Option, some, List, [], ◌++◌, if◌then◌else◌}
use web_davs_zk.Common.Text.{Text}
use web_davs_zk.Io.{Os, IoError, ok, err}

-- What is relied on of the file system: `content` is what a reader of the path is given, and
-- `IsAtEnd` that a handle writes at the end of the file at a path. Only the named file changes, and
-- a rename puts the file at its new path in one step or does nothing.
pub record FileLaws (os : Os) : Type 1 where
  pub content : Text → os.State → Option (List ℕ)
  pub IsAtEnd : ℕ → Text → os.State → Type 0
  pub write_all-ok :
      (handle : ℕ) (path : Text) (buf old : List ℕ) (s s' : os.State)
      → IsAtEnd handle path s
      → content path s ≡ some old
      → os.write_all handle buf s ≡ (ok tt, s')
      → IsAtEnd handle path s' × (content path s' ≡ some (old ++ buf))
  pub write_all-other :
      (handle : ℕ) (path p : Text) (buf : List ℕ) (s : os.State)
      → IsAtEnd handle path s
      → p ≢ path
      → content p (os.write_all handle buf s).1 ≡ content p s
  pub sync_data-content :
      (handle : ℕ) (p : Text) (s : os.State) → content p (os.sync_data handle s).1 ≡ content p s
  pub rename-ok :
      (old_path new_path : Text) (s s' : os.State)
      → os.rename old_path new_path s ≡ (ok tt, s')
      → content new_path s' ≡ content old_path s
  pub rename-err :
      (old_path new_path p : Text) (s s' : os.State) (e : IoError)
      → os.rename old_path new_path s ≡ (err e, s')
      → content p s' ≡ content p s
  pub set_xattr-content :
      (path name value p : Text) (s : os.State)
      → content p (os.set_xattr path name value s) ≡ content p s
  pub remove_file-other :
      (path p : Text) (s : os.State) → p ≢ path → content p (os.remove_file path s).1 ≡ content p s

-- What is relied on besides where a file is created: it is new and empty, the handle stands at its
-- end, and neither this, nor an attempt that fails, nor a new directory changes another file.
pub record CreateLaws (os : Os) (laws : FileLaws os) : Type 1 where
  pub create_new-ok :
      (path : Text) (s s' : os.State) (handle : ℕ)
      → os.create_new path s ≡ (ok handle, s')
      → laws.IsAtEnd handle path s' × (laws.content path s' ≡ some [])
  pub create_new-other :
      (path p : Text) (s : os.State)
      → p ≢ path
      → laws.content p (os.create_new path s).1 ≡ laws.content p s
  pub create_dir_all-content :
      (path p : Text) (s : os.State)
      → laws.content p (os.create_dir_all path s).1 ≡ laws.content p s

-- The abstract view of an upload: all of the body at once, or nothing.
unfoldable pub atomic_put : Bool → List ℕ → Option (List ℕ) → Option (List ℕ)
atomic_put published body old = if published then some body else old
