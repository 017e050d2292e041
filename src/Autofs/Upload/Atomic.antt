-- ===== src/Autofs/Upload/Atomic.antt =====
-- An upload through an `AtomicFile` of src/autofs.rs, as those see it who read the target.
use mathlib.Core.List.{flatten}
use web_davs_zk.Common.{ℕ, ◌≡◌, ◌≢◌, refl, ap, sym, ◌∙◌, Bool, Option, some, List, []}
use web_davs_zk.Common.Text.{Text}
use web_davs_zk.Io.{Os}
use web_davs_zk.Autofs.Upload.{
  Hashing, AtomicFile, FsResult, done, failed, new, commit, flush, drop_file,
}
use web_davs_zk.Autofs.Upload.Body.{send}
use web_davs_zk.Autofs.Upload.Files.{FileLaws, atomic_put}
use web_davs_zk.Autofs.Upload.Sending.{Writing, Sent, send-Sent}
use web_davs_zk.Autofs.Upload.Settling.{commit-Settled, drop_file-target}

module _ (h : Hashing) (os : Os) where
  -- An upload: the body in pieces, the flush if all of it could be written, and the drop. The file
  -- as it is dropped stands beside the state.
  abbrev dropped : FsResult (Unit {0}) × AtomicFile × os.State → AtomicFile × os.State
  dropped (r, g, t) = (g, drop_file h os g t)

  abbrev then_flush : FsResult (Unit {0}) × AtomicFile × os.State → AtomicFile × os.State
  then_flush (done _, g, t) = dropped (flush h os g t)
  then_flush (failed e, g, t) = dropped (failed e, g, t)

  unfoldable pub put : List (List ℕ) → AtomicFile → os.State → AtomicFile × os.State
  put body f s = then_flush (send h os body f s)

  module _ (laws : FileLaws os) (temp target : Text) (apart : target ≢ temp) where
    open laws use {content}

    then_flush-atomic_put :
        (handle : ℕ) (written : List ℕ) (s : os.State)
        (w : FsResult (Unit {0}) × AtomicFile × os.State)
        → Sent h os laws temp target apart handle written s w
        → let (g, u) = then_flush w in
          content target u ≡ atomic_put g.committed written (content target s)
    unfolding flush atomic_put
    then_flush-atomic_put handle written s (done tt, g, t) (w, kept, holds) =
        let (named, settled) =
          commit-Settled h os laws temp target apart handle written g t w (holds refl) in
        drop_file-target h os laws temp target apart (commit h os g t).1 (commit h os g t).2 named
        ∙ (settled ∙ ap (atomic_put (commit h os g t).1.committed written) kept)
    then_flush-atomic_put handle written s (failed e, g, t) (w, kept, holds) =
        drop_file-target h os laws temp target apart g t w.named
        ∙ (kept ∙ sym (ap (λ b. atomic_put b written (content target s)) w.fresh))

    -- An upload to an empty temporary file, at whose end the handle stands.
    pub put-atomic_put :
        (body : List (List ℕ)) (size : Option ℕ) (checksum : Option Text) (handle : ℕ)
        (fsync : Bool) (s : os.State)
        → laws.IsAtEnd handle temp s
        → content temp s ≡ some []
        → let f = new temp target size checksum handle fsync in
          let (g, u) = put body f s in
          (content target u ≡ atomic_put g.committed (flatten body) (content target s))
          × (content target (send h os body f s).2 ≡ content target s)
    unfolding put
    put-atomic_put body size checksum handle fsync s at_end empty =
        let f = new temp target size checksum handle fsync in
        let writing : Writing h os laws temp target apart handle f = record {
          opened = refl;
          named = refl;
          aimed = refl;
          fresh = refl;
        } in
        let sent = send-Sent h os laws temp target apart handle body f s [] writing at_end empty in
        (then_flush-atomic_put handle (flatten body) s (send h os body f s) sent, sent.1)
