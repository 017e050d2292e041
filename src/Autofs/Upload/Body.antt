-- ===== src/Autofs/Upload/Body.antt =====
-- A body that is written in pieces to an `AtomicFile` of src/autofs.rs, and flushed.
use mathlib.Core.List.{append-nil, append_assoc, flatten}
use web_davs_zk.Common.{
  ℕ, ◌+◌, ◌%◌, ◌^◌, ◌<◌, ◌≡◌, ◌≢◌, ◌⊎◌, refl, ap, sym, ◌∙◌, inl, inr, Bool, true, false, Option,
  none, some, Option-cases, List, [], ◌∷◌, ◌++◌, arith, list_beq_iff, nat_eq, length,
}
use web_davs_zk.Common.Text.{Text}
use web_davs_zk.Io.{Os, ok}
use web_davs_zk.Autofs.Upload.{
  Hashing, AtomicFile, FsResult, done, failed, total, new, is_mismatch, expected_digest,
  should_commit, flush, write_bytes, sync, drop_file,
}
use web_davs_zk.Autofs.Upload.Commit.{synced, commit-committed, commit_of_partial}

module _ (h : Hashing) (os : Os) where
  -- The body of a request, in the pieces that arrive, up to the first failure.
  unfoldable pub send :
      List (List ℕ) → AtomicFile → os.State → FsResult (Unit {0}) × AtomicFile × os.State
  send [] f s = (done tt, f, s)
  send (buf ∷ bufs) f s =
      let (r, f', s') = write_bytes h os buf f s in
      elim r [ done _ ↦ send bufs f' s' | failed e ↦ (failed e, f', s') ]

  -- What a body that was written whole has made of the file.
  record Holds (f : AtomicFile) (body : List (List ℕ)) (g : AtomicFile) : Type 0 where
    hashed : g.hasher ≡ f.hasher ++ flatten body
    counted : g.written ≡ (f.written + total body) % 2 ^ 64
    same : (g.temp_path ≡ f.temp_path) × (g.target_path ≡ f.target_path)
    announced : (g.expected_size ≡ f.expected_size) × (g.expected_checksum ≡ f.expected_checksum)
    uncommitted : g.committed ≡ f.committed

  write_bytes-Holds :
      (buf : List ℕ) (f : AtomicFile) (s : os.State)
      → (write_bytes h os buf f s).0 ≡ done tt
      → ((write_bytes h os buf f s).1.hasher ≡ f.hasher ++ buf)
        × ((write_bytes h os buf f s).1.written ≡ (f.written + length buf) % 2 ^ 64)
        × ((write_bytes h os buf f s).1.temp_path ≡ f.temp_path)
        × ((write_bytes h os buf f s).1.target_path ≡ f.target_path)
        × ((write_bytes h os buf f s).1.expected_size ≡ f.expected_size)
        × ((write_bytes h os buf f s).1.expected_checksum ≡ f.expected_checksum)
        × ((write_bytes h os buf f s).1.committed ≡ f.committed)
  unfolding write_bytes
  write_bytes-Holds buf f s e = ground arith

  send_step :
      (buf : List ℕ) (body : List (List ℕ)) (f : AtomicFile) (s : os.State)
      → (send (buf ∷ body) f s).0 ≡ done tt
      → let (r, f', s') = write_bytes h os buf f s in
        (r ≡ done tt) × (send (buf ∷ body) f s ≡ send body f' s')
  unfolding send
  send_step buf body f s e = ground arith

  Holds-step :
      (buf : List ℕ) (body : List (List ℕ)) (f f' g : AtomicFile)
      → (f'.hasher ≡ f.hasher ++ buf)
      → (f'.written ≡ (f.written + length buf) % 2 ^ 64)
      → (f'.temp_path ≡ f.temp_path) × (f'.target_path ≡ f.target_path)
      → (f'.expected_size ≡ f.expected_size) × (f'.expected_checksum ≡ f.expected_checksum)
      → f'.committed ≡ f.committed
      → Holds f' body g
      → Holds f (buf ∷ body) g
  unfolding flatten
  Holds-step buf body f f' g hash count paths announced still k = record {
    hashed =
        k.hashed ∙ (ap (λ t. t ++ flatten body) hash ∙ append_assoc f.hasher buf (flatten body));
    counted = omega (arith, k.counted);
    same = (k.same.0 ∙ paths.0, k.same.1 ∙ paths.1);
    announced = (k.announced.0 ∙ announced.0, k.announced.1 ∙ announced.1);
    uncommitted = k.uncommitted ∙ still;
  }

  send-Holds :
      (body : List (List ℕ)) (f : AtomicFile) (s : os.State)
      → f.written < 2 ^ 64
      → (send body f s).0 ≡ done tt
      → Holds f body (send body f s).1
  unfolding send flatten
  send-Holds [] f s w e = record {
    hashed = sym (append-nil f.hasher);
    counted = omega arith;
    same = (refl, refl);
    announced = (refl, refl);
    uncommitted = refl;
  }
  send-Holds (buf ∷ body) f s w e =
      let (r, next) = send_step buf body f s e in
      let (hash, count, temp, target, size, sum, still) = write_bytes-Holds buf f s r in
      let (_, f', s') = write_bytes h os buf f s in
      rw next (
        Holds-step buf body f f' _ hash count (temp, target) (size, sum) still
          (send-Holds body f' s' (omega (arith, count)) (rw next at e)))

  size_agrees :
      (f : AtomicFile)
      → should_commit h f ≡ true
      → (f.expected_size ≡ none) ⊎ (f.expected_size ≡ some f.written)
  unfolding should_commit
  size_agrees f e = ground arith

  checksum_agrees :
      (f : AtomicFile)
      → is_mismatch h f ≡ false
      → (expected_digest h f.expected_checksum ≡ none)
        ⊎ (expected_digest h f.expected_checksum ≡ some (h.sha256 f.hasher))
  unfolding is_mismatch
  checksum_agrees f e = elim (Option-cases (expected_digest h f.expected_checksum)) [
    | inl absent ↦ inl absent
    | inr (digest, found) ↦ inr (ground (arith, found, list_beq_iff digest (h.sha256 f.hasher)))
  ]

  Holds-published :
      (f g : AtomicFile) (body : List (List ℕ))
      → f.written ≡ 0
      → f.hasher ≡ []
      → Holds f body g
      → should_commit h g ≡ true
      → is_mismatch h g ≡ false
      → ((f.expected_size ≡ none) ⊎ (f.expected_size ≡ some (total body % 2 ^ 64)))
        × ((expected_digest h f.expected_checksum ≡ none)
            ⊎ (expected_digest h f.expected_checksum ≡ some (h.sha256 (flatten body))))
  Holds-published f g body w e k sc mm = (
    elim (size_agrees g sc) [
      | inl free ↦ inl (sym k.announced.0 ∙ free)
      | inr fits ↦ inr (sym k.announced.0 ∙ (fits ∙ ap some (omega (arith, k.counted))))
    ],
    elim (checksum_agrees g mm) [
      | inl free ↦ inl (ap (expected_digest h) (sym k.announced.1) ∙ free)
      | inr fits ↦ inr (
          ap (expected_digest h) (sym k.announced.1)
          ∙ (fits ∙ ap (λ t. some (h.sha256 t)) (k.hashed ∙ rw e)))
    ],
  )

  -- A body that is written in full and then flushed is published only if its length (as a u64) was
  -- announced, or none was, if its SHA-256 is the checksum that the client sent, or it sent none
  -- that is verified, and if the rename to the target succeeds.
  pub flush-send :
      (body : List (List ℕ)) (temp target : Text) (size : Option ℕ) (checksum : Option Text)
      (handle : ℕ) (fsync : Bool) (s : os.State)
      → let (r, f, t) = send body (new temp target size checksum handle fsync) s in
        r ≡ done tt
        → (flush h os f t).1.committed ≡ true
        → ((size ≡ none) ⊎ (size ≡ some (total body % 2 ^ 64)))
          × ((expected_digest h checksum ≡ none)
              ⊎ (expected_digest h checksum ≡ some (h.sha256 (flatten body))))
          × ((os.rename temp target (synced h os f t)).0 ≡ ok tt)
  unfolding flush
  flush-send body temp target size checksum handle fsync s e c =
      let f₀ = new temp target size checksum handle fsync in
      let k = send-Holds body f₀ s (omega arith) e in
      let (_, f, t) = send body f₀ s in
      let r = commit-committed h os f t k.uncommitted c in
      let p = Holds-published f₀ f body refl refl k r.0 r.1 in
      (p.0, p.1, rw (k.same.0, k.same.1) at r.2)

  short_body :
      (f g : AtomicFile) (body : List (List ℕ)) (announced : ℕ)
      → f.written ≡ 0
      → f.expected_size ≡ some announced
      → announced ≢ total body % 2 ^ 64
      → Holds f body g
      → should_commit h g ≡ false
  unfolding should_commit
  short_body f g body announced w size short k =
      let same : g.expected_size ≡ some announced = k.announced.0 ∙ size in
      rw same (ground (arith, k.counted))

  fitting_sum :
      (f g : AtomicFile) (body : List (List ℕ))
      → f.hasher ≡ []
      → (expected_digest h f.expected_checksum ≡ none)
        ⊎ (expected_digest h f.expected_checksum ≡ some (h.sha256 (flatten body)))
      → Holds f body g
      → is_mismatch h g ≡ false
  unfolding is_mismatch
  fitting_sum f g body e fits k = elim fits [
    | inl free ↦
        let unverified : expected_digest h g.expected_checksum ≡ none =
          ap (expected_digest h) k.announced.1 ∙ free in
        rw unverified refl
    | inr sum ↦
        let whole : g.hasher ≡ flatten body = k.hashed ∙ rw e refl in
        let verified : expected_digest h g.expected_checksum ≡ some (h.sha256 g.hasher) =
          ap (expected_digest h) k.announced.1 ∙ sum ∙ ap (λ t. some (h.sha256 t)) (sym whole) in
        rw verified (rw ((list_beq_iff (h.sha256 g.hasher) (h.sha256 g.hasher)).1 refl) refl)
  ]

  -- A body that is written in full, but is not as long as was announced, is not published by the
  -- flush that follows, though the flush reports success; then the drop of the file removes the
  -- temporary file, and all that was written is lost. This holds where no checksum contradicts the
  -- body, and its synchronisation succeeds, if that is asked for.
  pub flush-send_of_partial :
      (body : List (List ℕ)) (temp target : Text) (announced : ℕ) (checksum : Option Text)
      (handle : ℕ) (fsync : Bool) (s : os.State)
      → let (r, f, t) = send body (new temp target (some announced) checksum handle fsync) s in
        r ≡ done tt
        → announced ≢ total body % 2 ^ 64
        → (expected_digest h checksum ≡ none)
          ⊎ (expected_digest h checksum ≡ some (h.sha256 (flatten body)))
        → (sync h os f.fsync f.file t).0 ≡ ok tt
        → let (r', g, u) = flush h os f t in
          (r' ≡ done tt) × (u ≡ synced h os f t) × (drop_file h os g u ≡ (os.remove_file temp u).1)
  unfolding flush drop_file
  flush-send_of_partial body temp target announced checksum handle fsync s e short fits synced_ok =
      let f₀ = new temp target (some announced) checksum handle fsync in
      let k = send-Holds body f₀ s (omega arith) e in
      let (_, f, t) = send body f₀ s in
      rw
        (commit_of_partial h os f t k.uncommitted synced_ok (fitting_sum f₀ f body refl fits k)
          (short_body f₀ f body announced refl refl short k))
        (refl, refl, rw k.same.0 refl)
