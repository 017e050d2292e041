-- ===== src/Autofs/Upload/Settling.antt =====
-- What a commit or the drop of an `AtomicFile` of src/autofs.rs leaves in the files.
use mathlib.Core.Path.{subst}
use web_davs_zk.Common.{
  ℕ, arith, ◌≡◌, ◌≢◌, refl, sym, ◌∙◌, inl, inr, Bool, true, false, Bool-cases, Option, none, some,
  List,
}
use web_davs_zk.Common.Text.{Text}
use web_davs_zk.Io.{Os, Result, Result-cases, ok, err}
use web_davs_zk.Autofs.Upload.{
  Hashing, AtomicFile, FsResult, general_failure, failed, publish, settle, sync, commit,
  is_mismatch, should_commit, drop_file,
}
use web_davs_zk.Autofs.Upload.Files.{FileLaws, atomic_put}
use web_davs_zk.Autofs.Upload.Sending.{Writing}

module _ (h : Hashing) (os : Os) where
  module _ (laws : FileLaws os) (temp target : Text) (apart : target ≢ temp) where
    open laws use {content}

    sync-content :
        (fsync : Bool) (file : Option ℕ) (p : Text) (s : os.State)
        → content p (sync h os fsync file s).1 ≡ content p s
    sync-content true (some handle) p s = laws.sync_data-content handle p s
    sync-content true none p s = refl
    sync-content false file p s = refl

    -- What a rename, or its absence, leaves under the target.
    abbrev Published : Bool → List ℕ → Option (List ℕ) → Result (Unit {0}) × os.State → Type 0
    Published should written old (ok tt, u) = content target u ≡ atomic_put should written old
    Published should written old (err e, u) = content target u ≡ old

    publish-Published :
        (should : Bool) (written : List ℕ) (w : Result (Unit {0}) × os.State)
        → content temp w.1 ≡ some written
        → Published should written (content target w.1) (publish h os should temp target w)
    unfolding atomic_put
    publish-Published should written (err e, u) holds = refl
    publish-Published false written (ok tt, u) holds = refl
    publish-Published true written (ok tt, u) holds =
        elim (Result-cases (os.rename temp target u)) [
          | inl (_, v, renamed) ↦ rw renamed (laws.rename-ok temp target u v renamed ∙ holds)
          | inr (e, v, refused) ↦ rw refused (laws.rename-err temp target target u v e refused)
        ]

    -- What a commit leaves: the temporary file's name is kept, and the target is as its flag says.
    abbrev pub Settled :
        List ℕ → Option (List ℕ) → FsResult (Unit {0}) × AtomicFile × os.State → Type 0
    Settled written old (r, g, u) =
        (g.temp_path ≡ temp) × (content target u ≡ atomic_put g.committed written old)

    settle-Settled :
        (should : Bool) (written : List ℕ) (old : Option (List ℕ)) (g : AtomicFile)
        (w : Result (Unit {0}) × os.State)
        → (g.temp_path ≡ temp) × (g.committed ≡ false)
        → Published should written old w
        → Settled written old (settle h os should g w)
    unfolding atomic_put
    settle-Settled should written old g (err e, u) (named, fresh) p = (named, rw fresh p)
    settle-Settled false written old g (ok tt, u) (named, fresh) p = (named, p)
    settle-Settled true written old g (ok tt, u) (named, fresh) p =
        (named, laws.set_xattr-content _ _ _ target u ∙ p)

    commit-mismatch :
        (g : AtomicFile) (t : os.State)
        → g.committed ≡ false
        → is_mismatch h g ≡ true
        → commit h os g t ≡ (failed general_failure, g, t)
    unfolding commit
    commit-mismatch g t fresh bad = ground arith

    commit-settle :
        (g : AtomicFile) (t : os.State)
        → g.committed ≡ false
        → is_mismatch h g ≡ false
        → commit h os g t
          ≡ settle h os
              (should_commit h g)
              (record g { file = none })
              (publish h os
                (should_commit h g)
                g.temp_path
                g.target_path
                (sync h os g.fsync g.file t))
    unfolding commit
    commit-settle g t fresh good = ground arith

    pub commit-Settled :
        (handle : ℕ) (written : List ℕ) (g : AtomicFile) (t : os.State)
        → Writing h os laws temp target apart handle g
        → content temp t ≡ some written
        → Settled written (content target t) (commit h os g t)
    unfolding atomic_put
    commit-Settled handle written g t w holds =
        let synced = sync h os g.fsync g.file t in
        let kept = sync-content g.fsync g.file target t in
        let should = should_commit h g in
        let moved =
          publish-Published should written synced (sync-content g.fsync g.file temp t ∙ holds) in
        let named =
          subst
            (λ p.
              Published should written (content target synced.1)
                (publish h os should p target synced))
            (sym w.named) moved in
        let aimed =
          subst
            (λ p.
              Published should written (content target synced.1)
                (publish h os should g.temp_path p synced))
            (sym w.aimed) named in
        elim (Bool-cases (is_mismatch h g)) [
          | inl bad ↦ rw (commit-mismatch g t w.fresh bad) (w.named, rw w.fresh refl)
          | inr good ↦ rw (commit-settle g t w.fresh good) (
              settle-Settled should written (content target t) (record g { file = none }) _
                (w.named, w.fresh)
                (subst
                  (λ old.
                    Published should written old
                      (publish h os should g.temp_path g.target_path synced))
                  kept aimed))
        ]

    pub drop_file-target :
        (g : AtomicFile) (u : os.State)
        → g.temp_path ≡ temp
        → content target (drop_file h os g u) ≡ content target u
    unfolding drop_file
    drop_file-target g u named = elim (Bool-cases g.committed) [
      | inl published ↦ rw (published, drop_file) refl
      | inr kept ↦
          rw (kept, drop_file)
            (laws.remove_file-other g.temp_path target u (λ e. apart (e ∙ named)))
    ]
