-- ===== src/Examples.antt =====
-- Concrete instances of what the programs rely on, and theorems at concrete inputs.
pub mod Serving
pub mod Uploads
pub mod Starting
pub mod Jobs
pub mod Helper
pub mod Searches
pub mod Memory
pub mod Routing
use web_davs_zk.Common.{
  ℕ, suc, ◌+◌, Bool, true, false, Option, none, some, List, [], ◌∷◌, ◌++◌, ◌==◌, nat_eq, list_eq,
  list_beq, list_beq_iff, ◌||◌, length,
}
use web_davs_zk.Common.Text.{Text, text}
use web_davs_zk.External.{Codec}
use web_davs_zk.Io.{Os, IoError, Result, ok, err, not_found, permission_denied, Metadata}

-- Text that is taken as its own encoding.
abbrev pub plain_codec : Codec
plain_codec = record { decode = some; ct_eq = list_beq; ct_eq_iff = list_beq_iff }

abbrev pub missing : IoError
missing = record { kind = not_found; raw_os_error = some 2; message = text "missing" }

abbrev pub denied : IoError
denied = record { kind = permission_denied; raw_os_error = some 13; message = text "denied" }

abbrev pub folder : Text
folder = text "/d"

abbrev pub inside : Text
inside = text "/d/x"

-- A disk with one folder and one file in it; its state counts the changes.
abbrev pub disk : Os
disk = record {
  State = ℕ;
  is_dir = λ p s. p == folder;
  exists = λ p s. p == folder || p == inside;
  is_file = λ p s. p == inside;
  is_symlink = λ p s. false;
  symlink_metadata =
      λ p s. ok (record { is_dir = p == folder; is_symlink = false; len = 3; mtime = none });
  canonicalize = λ p s. ok p;
  read_dir = λ p s. ok (ok (text "x") ∷ []);
  entry_is_dir = λ p s. false;
  create_dir_all = λ p s. (ok tt, suc s);
  remove_file = λ p s. (ok tt, suc s);
  remove_dir = λ p s. (ok tt, suc s);
  remove_dir_all = λ p s. (ok tt, suc s);
  rename = λ p q s. (ok tt, suc s);
  open_read = λ p s. (ok (ok (1 ∷ 2 ∷ 3 ∷ []) ∷ []), s);
  create = λ p s. (ok 7, suc s);
  create_new = λ p s. (ok 7, suc s);
  permissions = λ p s. ok 420;
  set_permissions = λ w mode s. s;
  write_all = λ w bytes s. (ok tt, suc s);
  flush = λ w s. (ok tt, s);
  write_file = λ p t s. (ok tt, suc s);
  set_mode = λ p mode s. (ok tt, s);
  read_file = λ p s. err missing;
  write = λ w bytes s. (ok (length bytes), suc s);
  read = λ w n s. (ok [], s);
  seek = λ w pos s. (ok 0, s);
  sync_data = λ w s. (ok tt, s);
  metadata = λ p s. ok (record { is_dir = p == folder; is_symlink = false; len = 3; mtime = none });
  statvfs = λ p s. err missing;
  set_xattr = λ p name value s. s;
}
