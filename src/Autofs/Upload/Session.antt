-- ===== src/Autofs/Upload/Session.antt =====
-- Whole uploads: the calls that a handler makes of one `AtomicFile` of src/autofs.rs, in any order.
use mathlib.Core.Bool.{false≢true}
use web_davs_zk.Common.{ℕ, ◌≡◌, refl, ◌∙◌, Bool, true, Option, none, List, [], ◌∷◌, arith, nat_eq}
use web_davs_zk.Common.Text.{Text}
use web_davs_zk.Io.{Os, SeekFrom}
use web_davs_zk.Autofs.Upload.{
  Hashing, AtomicFile, FsResult, new, commit, flush, metadata, write_bytes, write_buf, read_bytes,
  seek, drop_file,
}

-- The calls of the trait `DavFile`.
pub data Call : Type 0 where
  metadata_call flush_call : Call
  write_bytes_call : List ℕ → Call
  write_buf_call : List (List ℕ) → Call
  read_bytes_call : ℕ → Call
  seek_call : SeekFrom → Call

module _ (h : Hashing) (os : Os) where
  abbrev rest_of : {A : Type 0} → FsResult A × AtomicFile × os.State → AtomicFile × os.State
  rest_of (r, f, s) = (f, s)

  unfoldable pub call : Call → AtomicFile → os.State → AtomicFile × os.State
  call metadata_call f s = rest_of (metadata h os f s)
  call flush_call f s = rest_of (flush h os f s)
  call (write_bytes_call buf) f s = rest_of (write_bytes h os buf f s)
  call (write_buf_call buf) f s = rest_of (write_buf h os buf f s)
  call (read_bytes_call count) f s = rest_of (read_bytes h os count f s)
  call (seek_call pos) f s = rest_of (seek h os pos f s)

  unfoldable pub calls : List Call → AtomicFile → os.State → AtomicFile × os.State
  calls [] f s = (f, s)
  calls (c ∷ cs) f s = let (f', s') = call c f s in calls cs f' s'

  -- A published file has given its handle up.
  abbrev pub IsClosed : AtomicFile → Type 0
  IsClosed f = f.committed ≡ true → f.file ≡ none

  call-IsClosed : (c : Call) (f : AtomicFile) (s : os.State) → IsClosed f → IsClosed (call c f s).0
  unfolding call commit metadata flush write_bytes write_buf read_bytes seek
  call-IsClosed metadata_call f s k = ground arith
  call-IsClosed flush_call f s k = ground arith
  call-IsClosed (write_bytes_call buf) f s k = ground arith
  call-IsClosed (write_buf_call buf) f s k = ground arith
  call-IsClosed (read_bytes_call count) f s k = ground arith
  call-IsClosed (seek_call pos) f s k = ground arith

  calls-IsClosed :
      (cs : List Call) (f : AtomicFile) (s : os.State) → IsClosed f → IsClosed (calls cs f s).0
  unfolding calls
  calls-IsClosed [] f s k = k
  calls-IsClosed (c ∷ cs) f s k =
      calls-IsClosed cs (call c f s).0 (call c f s).1 (call-IsClosed c f s k)

  call_of_committed :
      (c : Call) (f : AtomicFile) (s : os.State)
      → f.committed ≡ true
      → f.file ≡ none
      → ((call c f s).0.committed ≡ true) × ((call c f s).0.file ≡ none) × ((call c f s).1 ≡ s)
  unfolding call commit metadata flush write_bytes write_buf read_bytes seek
  call_of_committed metadata_call f s e k = ground arith
  call_of_committed flush_call f s e k = ground arith
  call_of_committed (write_bytes_call buf) f s e k = ground arith
  call_of_committed (write_buf_call buf) f s e k = ground arith
  call_of_committed (read_bytes_call count) f s e k = ground arith
  call_of_committed (seek_call pos) f s e k = ground arith

  calls_of_committed :
      (cs : List Call) (f : AtomicFile) (s : os.State)
      → f.committed ≡ true
      → f.file ≡ none
      → ((calls cs f s).0.committed ≡ true) × ((calls cs f s).1 ≡ s)
  unfolding calls
  calls_of_committed [] f s e k = (e, refl)
  calls_of_committed (c ∷ cs) f s e k =
      let (e', k', same) = call_of_committed c f s e k in
      let r = calls_of_committed cs (call c f s).0 (call c f s).1 e' k' in (r.0, r.1 ∙ same)

  -- Whatever calls a handler makes of a new file: once it is published, any later calls and the
  -- final drop leave the file system as it is. So a published file is never touched again.
  pub calls_after_publishing :
      (before after : List Call) (temp target : Text) (size : Option ℕ) (checksum : Option Text)
      (handle : ℕ) (fsync : Bool) (s : os.State)
      → let (f, t) = calls before (new temp target size checksum handle fsync) s in
        f.committed ≡ true → let (g, u) = calls after f t in (u ≡ t) × (drop_file h os g u ≡ t)
  unfolding drop_file
  calls_after_publishing before after temp target size checksum handle fsync s e =
      let closed =
        calls-IsClosed before (new temp target size checksum handle fsync) s
          (λ c. absurd (false≢true c)) in
      let r = calls_of_committed after _ _ e (closed e) in (r.1, rw r.0 r.1)
