-- ===== src/Autofs/Upload/Sending.antt =====
-- What a body that is sent to an `AtomicFile` of src/autofs.rs leaves in the files.
use mathlib.Core.List.{append-nil, append_assoc, flatten}
use web_davs_zk.Common.{
  ℕ, length, ◌≡◌, ◌≢◌, refl, ap, sym, ◌∙◌, inl, inr, false, some, List, [], ◌∷◌, ◌++◌,
}
use web_davs_zk.Common.Text.{Text}
use web_davs_zk.Io.{Os, Result, Result-cases, ok, err}
use web_davs_zk.Autofs.Upload.{
  Hashing, AtomicFile, FsResult, add_u64, done, failed, map_err, write_bytes,
}
use web_davs_zk.Autofs.Upload.Body.{send}
use web_davs_zk.Autofs.Upload.Files.{FileLaws}

module _ (h : Hashing) (os : Os) where
  module _ (laws : FileLaws os) (temp target : Text) (apart : target ≢ temp) where
    open laws use {content}

    -- A file that is being written: its handle is at the end of the temporary file.
    pub record Writing (handle : ℕ) (f : AtomicFile) : Type 0 where
      pub opened : f.file ≡ some handle
      pub named : f.temp_path ≡ temp
      pub aimed : f.target_path ≡ target
      pub fresh : f.committed ≡ false

    -- What sending a body leaves, whatever came of it.
    abbrev pub Sent : ℕ → List ℕ → os.State → FsResult (Unit {0}) × AtomicFile × os.State → Type 0
    Sent handle written s (r, g, t) =
        Writing handle g
        × (content target t ≡ content target s)
        × (r ≡ done tt → content temp t ≡ some written)

    abbrev written_to : ℕ → List ℕ → AtomicFile → AtomicFile
    written_to handle buf f = record f {
      file = some handle;
      hasher = f.hasher ++ buf;
      written = add_u64 f.written (length buf);
    }

    written_to-Writing :
        (handle : ℕ) (buf : List ℕ) (f : AtomicFile)
        → Writing handle f
        → Writing handle (written_to handle buf f)
    written_to-Writing handle buf f w = record {
      opened = refl;
      named = w.named;
      aimed = w.aimed;
      fresh = w.fresh;
    }

    write_bytes-written :
        (handle : ℕ) (buf : List ℕ) (f : AtomicFile) (s s' : os.State) (r : Result (Unit {0}))
        → Writing handle f
        → os.write_all handle buf s ≡ (r, s')
        → write_bytes h os buf f s ≡ (map_err r, written_to handle buf f, s')
    unfolding write_bytes
    write_bytes-written handle buf f s s' r w e = rw (w.opened, e) refl

    abbrev then_send :
        List (List ℕ)
        → FsResult (Unit {0}) × AtomicFile × os.State
        → FsResult (Unit {0}) × AtomicFile × os.State
    then_send body (r, f, s) = elim r [ done _ ↦ send h os body f s | failed e ↦ (failed e, f, s) ]

    send_after :
        (buf : List ℕ) (body : List (List ℕ)) (f : AtomicFile) (s : os.State)
        (w : FsResult (Unit {0}) × AtomicFile × os.State)
        → write_bytes h os buf f s ≡ w
        → send h os (buf ∷ body) f s ≡ then_send body w
    unfolding send
    send_after buf body f s w e = ap (then_send body) e

    pub send-Sent :
        (handle : ℕ) (body : List (List ℕ)) (f : AtomicFile) (s : os.State) (old : List ℕ)
        → Writing handle f
        → laws.IsAtEnd handle temp s
        → content temp s ≡ some old
        → Sent handle (old ++ flatten body) s (send h os body f s)
    unfolding send flatten
    send-Sent handle [] f s old w at_end holds =
        (w, refl, λ _. holds ∙ ap some (sym (append-nil old)))
    send-Sent handle (buf ∷ body) f s old w at_end holds =
        let f' = written_to handle buf f in
        let w' = written_to-Writing handle buf f w in
        elim (Result-cases (os.write_all handle buf s)) [
          | inr (e, s', wrote) ↦
              rw (send_after buf body f s _ (write_bytes-written handle buf f s s' (err e) w wrote))
                (
                  w',
                  rw wrote at (laws.write_all-other handle temp target buf s at_end apart),
                  λ impossible. cc,
                )
          | inl (_, s', wrote) ↦
              let (at_end', holds') =
                laws.write_all-ok handle temp buf old s s' at_end holds wrote in
              let same = rw wrote at (laws.write_all-other handle temp target buf s at_end apart) in
              let (w'', same', holds'') =
                send-Sent handle body f' s' (old ++ buf) w' at_end' holds' in
              rw (send_after buf body f s _ (write_bytes-written handle buf f s s' (ok tt) w wrote))
                (
                  w'',
                  same' ∙ same,
                  λ all. holds'' all ∙ ap some (append_assoc old buf (flatten body)),
                )
        ]
