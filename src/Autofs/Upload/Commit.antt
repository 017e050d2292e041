-- ===== src/Autofs/Upload/Commit.antt =====
-- When an upload is published: `commit` of src/autofs.rs.
use web_davs_zk.Common.{◌≡◌, true, false, none, arith}
use web_davs_zk.Common.Text.{text}
use web_davs_zk.Io.{Os, ok}
use web_davs_zk.Autofs.Upload.{Hashing, AtomicFile, done, is_mismatch, should_commit, sync, commit}

module _ (h : Hashing) (os : Os) where
  -- The file system when `commit` comes to the rename.
  abbrev pub synced : AtomicFile → os.State → os.State
  synced f s = (sync h os f.fsync f.file s).1

  -- A file that was not published is published by `commit` only if all of the body has arrived, no
  -- checksum contradicts it and the rename of the temporary file to the target succeeds; then
  -- `commit` reports success, and has set the attribute with the checksum of the body.
  pub commit-committed :
      (f : AtomicFile) (s : os.State)
      → f.committed ≡ false
      → (commit h os f s).1.committed ≡ true
      → (should_commit h f ≡ true)
        × (is_mismatch h f ≡ false)
        × ((os.rename f.temp_path f.target_path (synced f s)).0 ≡ ok tt)
        × (commit h os f s ≡ (
          done tt,
          record f { file = none; committed = true },
          os.set_xattr f.target_path
              (text "user.nzk_webdavs.sha256")
              (h.hex_encode (h.sha256 f.hasher))
              (os.rename f.temp_path f.target_path (synced f s)).1,
        ))
  unfolding commit
  commit-committed f s e c = ground arith

  -- Where the body is not as long as was announced, no checksum contradicts what has arrived, and
  -- the file is synchronised, if that is asked for, `commit` reports success and publishes nothing.
  pub commit_of_partial :
      (f : AtomicFile) (s : os.State)
      → f.committed ≡ false
      → (sync h os f.fsync f.file s).0 ≡ ok tt
      → is_mismatch h f ≡ false
      → should_commit h f ≡ false
      → commit h os f s ≡ (done tt, record f { file = none; committed = false }, synced f s)
  unfolding commit
  commit_of_partial f s e y m n = ground arith
