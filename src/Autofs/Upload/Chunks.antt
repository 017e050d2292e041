-- ===== src/Autofs/Upload/Chunks.antt =====
-- The loop of `write_buf` of src/autofs.rs over the chunks of a buffer.
use mathlib.Core.List.{append-nil, append_assoc, flatten}
use web_davs_zk.Common.{
  ℕ, zero, suc, ◌+◌, ◌%◌, ◌^◌, ◌≤◌, ◌≡◌, ◌⊎◌, refl, ap, sym, ◌∙◌, inl, inr, some, List, [], ◌∷◌,
  ◌++◌, arith, length, take, drop,
}
use web_davs_zk.Common.Text.{text}
use web_davs_zk.Io.{Os, IoError, Result, ok, err, Result-forms}
use web_davs_zk.Autofs.Upload.{
  Hashing, AtomicFile, total, write_error, write_chunks, write_buf, map_err,
}

take-drop : (n : ℕ) (bs : List ℕ) → take n bs ++ drop n bs ≡ bs
take-drop zero bs = refl
take-drop (suc n) [] = refl
take-drop (suc n) (b ∷ bs) = ap (λ t. b ∷ t) (take-drop n bs)

length-drop : (n : ℕ) (bs : List ℕ) → length (drop n bs) ≤ length bs
length-drop zero bs = omega arith
length-drop (suc n) [] = omega arith
length-drop (suc n) (b ∷ bs) = omega (arith, length-drop n bs)

retaken : (n : ℕ) (chunk more : List ℕ) → take n chunk ++ (drop n chunk ++ more) ≡ chunk ++ more
retaken n chunk more =
    sym (append_assoc (take n chunk) (drop n chunk) more) ∙ ap (λ t. t ++ more) (take-drop n chunk)

module _ (h : Hashing) (os : Os) (handle : ℕ) where
  -- Calls of `write` that lead from one state to `t`, and from the bytes that are offered to those
  -- that are left: each takes the first bytes of a chunk.
  pub data Wrote (left : List ℕ) (t : os.State) : List ℕ → os.State → Type 0 where
    finished : (bytes : List ℕ) (s : os.State) → bytes ≡ left → s ≡ t → Wrote left t bytes s
    piece :
        (chunk more : List ℕ) (n : ℕ) (s u : os.State)
        → os.write handle chunk s ≡ (ok n, u)
        → Wrote left t (drop n chunk ++ more) u
        → Wrote left t (chunk ++ more) s

  -- A write that ends the loop, and what the loop returns then.
  abbrev pub Refused : Result ℕ → Result (Unit {0}) → Type 0
  Refused w r =
      ((e : IoError) × (w ≡ err e) × (r ≡ err e))
      ⊎ ((w ≡ ok 0) × (r ≡ err (write_error h os (text "write returned 0 bytes"))))

  -- All bytes have been written and hashed; or those before the chunk whose write was refused, which
  -- was the last call.
  abbrev pub Hashed : List ℕ → List ℕ → os.State → Result (Unit {0}) → List ℕ → os.State → Type 0
  Hashed bytes before s r after s' =
      ((r ≡ ok tt) × (after ≡ before ++ bytes) × Wrote [] s' bytes s)
      ⊎ ((xs : List ℕ) × (chunk : List ℕ) × (more : List ℕ) × (t : os.State) × (bytes
            ≡ xs ++ (chunk ++ more))
          × (after ≡ before ++ xs)
          × Wrote (chunk ++ more) t bytes s
          × Refused (os.write handle chunk t).0 r
          × (s' ≡ (os.write handle chunk t).1))

  Hashed-Refused :
      (chunk more before : List ℕ) (r : Result (Unit {0})) (t : os.State)
      → Refused (os.write handle chunk t).0 r
      → Hashed (chunk ++ more) before t r before (os.write handle chunk t).1
  Hashed-Refused chunk more before r t refused =
      inr ([], chunk, more, t, refl, sym (append-nil before), finished _ _ refl refl, refused, refl)

  Hashed-piece :
      (chunk more before : List ℕ) (n : ℕ) (s u s' : os.State) (r : Result (Unit {0}))
      (after : List ℕ)
      → os.write handle chunk s ≡ (ok n, u)
      → Hashed (drop n chunk ++ more) (before ++ take n chunk) u r after s'
      → Hashed (chunk ++ more) before s r after s'
  Hashed-piece chunk more before n s u s' r after call (inl (fine, e, rest)) = inl (
    fine,
    e
        ∙ append_assoc before (take n chunk) (drop n chunk ++ more)
        ∙ ap (λ t. before ++ t) (retaken n chunk more),
    piece chunk more n s u call rest,
  )
  Hashed-piece chunk more before n s u s' r after call
        (inr (xs, c, m, t, split, e, rest, refused, last)) =
      inr (
        take n chunk ++ xs,
        c,
        m,
        t,
        sym (retaken n chunk more)
            ∙ ap (λ l. take n chunk ++ l) split
            ∙ sym (append_assoc (take n chunk) xs (c ++ m)),
        e ∙ append_assoc before (take n chunk) xs,
        piece chunk more n s u call rest,
        refused,
        last,
      )

  write_chunks-Hashed :
      (fuel : ℕ) (chunks : List (List ℕ)) (hasher : List ℕ) (s : os.State)
      → total chunks ≤ fuel
      → let (r, after, s') = write_chunks h os fuel handle chunks hasher s in
        Hashed (flatten chunks) hasher s r after s'
  unfolding write_chunks flatten
  write_chunks-Hashed fuel [] hasher s enough =
      inl (refl, sym (append-nil hasher), finished [] s refl refl)
  write_chunks-Hashed fuel ([] ∷ chunks) hasher s enough =
      write_chunks-Hashed fuel chunks hasher s (omega arith)
  write_chunks-Hashed zero ((b ∷ bs) ∷ chunks) hasher s enough = ground arith
  write_chunks-Hashed (suc fuel) ((b ∷ bs) ∷ chunks) hasher s enough =
      elim (Result-forms (os.write handle (b ∷ bs) s).0) [
        | inl (zero, e) ↦
            rw (e, write_chunks)
              (Hashed-Refused (b ∷ bs) (flatten chunks) hasher _ s (inr (e, refl)))
        | inl (suc n, e) ↦
            let u = (os.write handle (b ∷ bs) s).1 in
            let rest =
              write_chunks-Hashed fuel (drop n bs ∷ chunks) (hasher ++ b ∷ take n bs) u
                (omega (arith, length-drop n bs)) in
            rw (e, write_chunks)
              (Hashed-piece (b ∷ bs) (flatten chunks) hasher (suc n) s u _ _ _ (ap (λ r. (r, u)) e)
                rest)
        | inr (x, e) ↦
            rw (e, write_chunks)
              (Hashed-Refused (b ∷ bs) (flatten chunks) hasher _ s (inl (x, e, refl)))
      ]

  -- `write_buf` of an open file writes the bytes of the buffer in order, and hashes what the writes
  -- have taken: all bytes if it succeeds, and otherwise those before the chunk whose write failed or
  -- took no byte; that write is the last call, and its error is returned. In every case the file
  -- stays open, and counts all bytes of the buffer as written.
  pub write_buf-Hashed :
      (buf : List (List ℕ)) (f : AtomicFile) (s : os.State)
      → f.file ≡ some handle
      → let (r, g, s') = write_buf h os buf f s in
        (g.file ≡ some handle)
        × (g.written ≡ (f.written + total buf) % 2 ^ 64)
        × ((outcome : Result (Unit {0})) × (r ≡ map_err outcome)
            × Hashed (flatten buf) f.hasher s outcome g.hasher s')
  unfolding write_buf
  write_buf-Hashed buf f s opened = rw opened (
    refl,
    refl,
    (
      (write_chunks h os (total buf) handle buf f.hasher s).0,
      refl,
      write_chunks-Hashed (total buf) buf f.hasher s (omega arith),
    ),
  )
