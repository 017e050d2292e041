-- ===== src/Examples/Memory.antt =====
-- A file system that keeps what its files hold, and an upload through the server to it.
use mathlib.Core.Bool.{true, false, false≢true}
use mathlib.Core.List.{flatten}
use web_davs_zk.Common.{
  Bool, ℕ, arith, ◌≡◌, ◌≢◌, refl, sym, ap, ◌∙◌, Option, none, some, List, [], ◌∷◌, ◌++◌, ◌==◌,
  nat_eq, list_eq, list_beq, list_beq_iff, length, if◌then◌else◌,
}
use web_davs_zk.Common.Text.{Text, text, show}
use web_davs_zk.Common.Text.Split.{split}
use web_davs_zk.Io.Paths.{join, parent, file_name, parts_of, drop_skipped, same_path}
use web_davs_zk.Io.{Os, ok, err}
use web_davs_zk.Autofs.Upload.{AtomicFile, done, new}
use web_davs_zk.Autofs.Upload.Files.{FileLaws, CreateLaws, atomic_put}
use web_davs_zk.Autofs.Upload.Atomic.{put}
use web_davs_zk.Autofs.Create.{
  OpenOptions, AutoMkcolFs, DavServer, atomic, fspath, temp_candidate, try_temps, create_temp,
  free_space, ensure_parent, open_file,
}
use web_davs_zk.Autofs.Create.Opening.{IsApart, open_file-atomic_put}
use web_davs_zk.Autofs.Upload.Body.{send}
use web_davs_zk.Examples.{missing}
use web_davs_zk.Examples.Uploads.{plain_hash}

abbrev Files : Type 0
Files = Text → Option (List ℕ)

-- What the files hold, and the file that was created last.
record Memory : Type 0 where
  files : Files
  opened : Text

unfoldable set : Text → Option (List ℕ) → Files → Files
set path bytes fs p = if p == path then bytes else fs p

abbrev append_to : Option (List ℕ) → List ℕ → Option (List ℕ)
append_to none buf = none
append_to (some old) buf = some (old ++ buf)

-- Every handle writes to the file that was created last.
abbrev put_file : Text → Option (List ℕ) → Memory → Memory
put_file path bytes s = record s { files = set path bytes s.files }

abbrev make_file : Text → Memory → Memory
make_file path s = record { files = set path (some []) s.files; opened = path }

abbrev append_file : List ℕ → Memory → Memory
append_file bytes s = put_file s.opened (append_to (s.files s.opened) bytes) s

abbrev memory : Os
memory = record {
  State = Memory;
  is_dir = λ p s. p == text "/d";
  exists = λ p s. p == text "/d";
  is_file = λ p s. false;
  is_symlink = λ p s. false;
  symlink_metadata = λ p s. err missing;
  canonicalize = λ p s. ok p;
  read_dir = λ p s. ok [];
  entry_is_dir = λ p s. false;
  create_dir_all = λ p s. (ok tt, s);
  remove_file = λ p s. (ok tt, put_file p none s);
  remove_dir = λ p s. (err missing, s);
  remove_dir_all = λ p s. (err missing, s);
  rename = λ p q s. (ok tt, put_file q (s.files p) s);
  open_read = λ p s. (err missing, s);
  create = λ p s. (ok 7, make_file p s);
  create_new = λ p s. (ok 7, make_file p s);
  permissions = λ p s. ok 420;
  set_permissions = λ w mode s. s;
  write_all = λ w bytes s. (ok tt, append_file bytes s);
  flush = λ w s. (ok tt, s);
  write_file = λ p t s. (ok tt, put_file p (some t) s);
  set_mode = λ p mode s. (ok tt, s);
  read_file = λ p s. err missing;
  write = λ w bytes s. (ok (length bytes), append_file bytes s);
  read = λ w n s. (ok [], s);
  seek = λ w pos s. (ok 0, s);
  sync_data = λ w s. (ok tt, s);
  metadata = λ p s. err missing;
  statvfs = λ p s. err missing;
  set_xattr = λ p name value s. s;
}

set-same : (path : Text) (bytes : Option (List ℕ)) (fs : Files) → set path bytes fs path ≡ bytes
unfolding set
set-same path bytes fs = ground (arith, list_beq_iff path path)

set-other :
    (path p : Text) (bytes : Option (List ℕ)) (fs : Files) → p ≢ path → set path bytes fs p ≡ fs p
unfolding set
set-other path p bytes fs apart = ground (arith, list_beq_iff p path)

append_file-content :
    (path : Text) (buf old : List ℕ) (s : Memory)
    → path ≡ s.opened
    → s.files path ≡ some old
    → (append_file buf s).files path ≡ some (old ++ buf)
append_file-content path buf old s at_end holds =
    ap (append_file buf s).files at_end
    ∙ (set-same s.opened (append_to (s.files s.opened) buf) s.files
        ∙ ap (λ found. append_to found buf) (ap s.files (sym at_end) ∙ holds))

abbrev memory_laws : FileLaws memory
memory_laws = record {
  content = λ p s. s.files p;
  IsAtEnd = λ handle path s. path ≡ s.opened;
  write_all-ok = λ handle path buf old s s' at_end holds e. (
    at_end ∙ ap (λ w. w.1.opened) e,
    ap (λ w. w.1.files path) (sym e) ∙ append_file-content path buf old s at_end holds,
  );
  write_all-other = λ handle path p buf s at_end apart.
      set-other s.opened p _ s.files (λ e. apart (e ∙ sym at_end));
  sync_data-content = λ handle p s. refl;
  rename-ok = λ p q s s' e. ap (λ w. w.1.files q) (sym e) ∙ set-same q (s.files p) s.files;
  rename-err = λ p q r s s' e refused. cc;
  set_xattr-content = λ path name value p s. refl;
  remove_file-other = λ path p s apart. set-other path p none s.files apart;
}

memory_creates : CreateLaws memory memory_laws
memory_creates = record {
  create_new-ok = λ path s s' handle e.
      (ap (λ w. w.1.opened) e, ap (λ w. w.1.files path) (sym e) ∙ set-same path (some []) s.files);
  create_new-other = λ path p s apart. set-other path p (some []) s.files apart;
  create_dir_all-content = λ path p s. refl;
}

-- The target is there already.
abbrev before : Memory
before = record { files = set (text "/d/x") (some (9 ∷ [])) (λ p. none); opened = [] }

abbrev body : List (List ℕ)
body = (1 ∷ 2 ∷ []) ∷ (3 ∷ []) ∷ []

abbrev server : AutoMkcolFs
server = record { root = text "/d"; create_parents = true; atomic_writes = true; fsync = false }

abbrev dav : DavServer memory
dav = record {
  DavPath = Text;
  as_rel_ospath = λ p. p;
  parent_path = λ p. [];
  DavFile = Unit {0};
  open_inner = λ p options s. (done tt, s);
  create_dir_inner = λ p s. (done tt, s);
  ReadDirMeta = Unit {0};
  DirEntries = Unit {0};
  DavMetaData = Unit {0};
  read_dir_inner = λ p meta s. (done tt, s);
  metadata_inner = λ p s. (done tt, s);
  symlink_metadata_inner = λ p s. (done tt, s);
  remove_dir_inner = λ p s. (done tt, s);
  remove_file_inner = λ p s. (done tt, s);
  rename_inner = λ p q s. (done tt, s);
  copy_inner = λ p q s. (done tt, s);
}

abbrev options : OpenOptions
options = record {
  write = true;
  create = true;
  create_new = false;
  truncate = true;
  size = some 3;
  checksum = none;
}

abbrev temp : Text
temp = text "/d/x.uploading.nzk_webdavs"

abbrev upload : AtomicFile
upload = new temp (text "/d/x") (some 3) none 7 false

after_open : Memory
after_open = make_file temp before

opened : open_file memory server dav (text "x") options before ≡ (done (atomic upload), after_open)
unfolding open_file fspath join parent file_name parts_of drop_skipped split list_beq temp_candidate
    try_temps create_temp free_space ensure_parent same_path after_open
opened = refl

differs :
    (first : Bool) (t : Text)
    → list_beq (text "/d/x") (if first then temp else text "/d/x.uploading.nzk_webdavs." ++ t)
      ≡ false
unfolding list_beq
differs true t = refl
differs false t = refl

apart : IsApart memory memory_laws memory_creates server dav (text "x")
unfolding fspath join parent file_name parts_of drop_skipped split list_beq temp_candidate
apart i e = absurd (false≢true (sym (differs (i == 0) (show i)) ∙ (list_beq_iff _ _).1 e))

open_file-atomic_put_example :
    let (g, u) = put plain_hash memory body upload after_open in
    (u.files (text "/d/x") ≡ atomic_put g.committed (flatten body) (before.files (text "/d/x")))
    × ((send plain_hash memory body upload after_open).2.files (text "/d/x")
        ≡ before.files (text "/d/x"))
unfolding fspath join list_beq
open_file-atomic_put_example =
    open_file-atomic_put memory memory_laws memory_creates server dav (text "x") options apart
      plain_hash body before after_open upload opened
