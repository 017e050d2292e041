-- ===== src/Autofs/Create/Opening.antt =====
-- A file that `AutoMkcolFs::open` of src/autofs.rs opens for an atomic write, from its creation on.
use mathlib.Core.List.{flatten}
use mathlib.Core.Option
use web_davs_zk.Common.{
  ℕ, zero, suc, ◌+◌, ◌≡◌, ◌≢◌, refl, ap, ◌∙◌, inl, inr, Bool, true, false, Bool-cases, some, List,
  [], ◌&&◌, not, if◌then◌else◌,
}
use web_davs_zk.Common.Text.{Text, text}
use web_davs_zk.Io.{Os, Result-cases, is_already_exists}
use web_davs_zk.Io.Paths.{join, parent, file_name, same_path}
use web_davs_zk.Autofs.Upload.{
  Hashing, AtomicFile, FsError, FsResult, done, failed, exists, forbidden, insufficient_storage,
  new,
}
use web_davs_zk.Autofs.Upload.Body.{send}
use web_davs_zk.Autofs.Upload.Files.{FileLaws, CreateLaws, atomic_put}
use web_davs_zk.Autofs.Upload.Atomic.{put, put-atomic_put}
use web_davs_zk.Autofs.Create.{
  OpenOptions, AutoMkcolFs, DavServer, Opened, atomic, temp_candidate, try_temps, create_temp,
  fspath, ensure_parent, is_too_big, wrap_temp, open_atomic, wrap_inner, after_parent, free_space,
  open_file,
}

module _ (os : Os) (laws : FileLaws os) (creates : CreateLaws os laws) (target : Text) where
  open laws use {content}

  -- A temporary file that is not the target, new and empty, and before that nothing that changes the
  -- target.
  record Fresh (s t : os.State) (temp : Text) (handle : ℕ) : Type 0 where
    apart : target ≢ temp
    at_end : laws.IsAtEnd handle temp t
    empty : content temp t ≡ some []
    kept : content target t ≡ content target s

  abbrev FreshResult : os.State → FsResult (Text × ℕ) × os.State → Type 0
  FreshResult s (failed e, t) = content target t ≡ content target s
  FreshResult s (done (temp, handle), t) = Fresh s t temp handle

  module _ (dir name : Text) (apart : (i : ℕ) → target ≢ temp_candidate os dir name i) where
    try_temps-FreshResult :
        (left i : ℕ) (s s' : os.State)
        → content target s' ≡ content target s
        → FreshResult s (try_temps os left i dir name s')
    unfolding try_temps
    try_temps-FreshResult zero i s s' kept = kept
    try_temps-FreshResult (suc left) i s s' kept =
        let temp = temp_candidate os dir name i in
        let still = creates.create_new-other temp target s' (apart i) in
        elim (Result-cases (os.create_new temp s')) [
          | inl (handle, t, made) ↦
              let (at_end, empty) = creates.create_new-ok temp s' t handle made in
              rw (made, try_temps)
                (rw made record {
                  apart = apart i;
                  at_end = at_end;
                  empty = empty;
                  kept = rw made at still ∙ kept;
                })
          | inr (e, t, refused) ↦
              let kept' : content target t ≡ content target s = rw refused at still ∙ kept in
              elim (Bool-cases (is_already_exists e)) [
                | inl again ↦
                    rw (refused, try_temps)
                      (rw (again, refused) (try_temps-FreshResult left (i + 1) s t kept'))
                | inr other ↦ rw (refused, try_temps) (rw (other, refused) kept')
              ]
        ]

  abbrev OpenedResult :
      {DavFile : Type 0}
      → AutoMkcolFs
      → OpenOptions
      → os.State
      → FsResult (Opened DavFile) × os.State
      → Type 0
  OpenedResult fs options s (done (atomic f), t) =
      (temp : Text) × (handle : ℕ) × (f
        ≡ new temp target options.size options.checksum handle fs.fsync)
      × Fresh s t temp handle
  OpenedResult fs options s _ = Unit {0}

  module _ (fs : AutoMkcolFs) (dav : DavServer os) (options : OpenOptions) where
    wrap_temp-OpenedResult :
        (s : os.State) (w : FsResult (Text × ℕ) × os.State)
        → FreshResult s w
        → OpenedResult fs options s (wrap_temp os fs dav options target w)
    wrap_temp-OpenedResult s (failed e, t) fresh = tt
    wrap_temp-OpenedResult s (done (temp, handle), t) fresh = (temp, handle, refl, fresh)

    if-OpenedResult :
        (s s' : os.State) (b : Bool) (e : FsError) (w : FsResult (Opened dav.DavFile) × os.State)
        → OpenedResult fs options s w
        → OpenedResult fs options s (if b then (failed e, s') else w)
    if-OpenedResult s s' true e w opened = tt
    if-OpenedResult s s' false e w opened = opened

    wrap_inner-OpenedResult :
        (s : os.State) (w : FsResult dav.DavFile × os.State)
        → OpenedResult fs options s (wrap_inner os fs dav w)
    wrap_inner-OpenedResult s (failed e, t) = tt
    wrap_inner-OpenedResult s (done file, t) = tt

    if-content :
        (s : os.State) (b : Bool) (x y : FsResult (Unit {0}) × os.State)
        → content target x.1 ≡ content target s
        → content target y.1 ≡ content target s
        → content target (if b then x else y).1 ≡ content target s
    if-content s true x y p q = p
    if-content s false x y p q = q

    ensure_parent-content :
        (path : dav.DavPath) (s : os.State)
        → content target (ensure_parent os fs dav path s).1 ≡ content target s
    unfolding ensure_parent
    ensure_parent-content path s =
        let p = join fs.root (dav.as_rel_ospath (dav.parent_path path)) in
        if-content s (not fs.create_parents) (done tt, s) _ refl
          (if-content s (same_path p fs.root) (done tt, s) _ refl
            (creates.create_dir_all-content p target s))

module _ (os : Os) (laws : FileLaws os) (creates : CreateLaws os laws) (fs : AutoMkcolFs)
    (dav : DavServer os) (path : dav.DavPath) where
  abbrev target : Text
  target = fspath os fs dav path

  -- No name that is tried for the temporary file is that of the target.
  abbrev pub IsApart : Type 0
  IsApart =
      (i : ℕ)
      → target
        ≢ temp_candidate os (Option.get_or (parent target) fs.root)
            (Option.get_or (file_name target) (text "file")) i

  module _ (options : OpenOptions) (apart : IsApart) where
    open_atomic-OpenedResult :
        (s s' : os.State)
        → laws.content target s' ≡ laws.content target s
        → OpenedResult os laws creates target fs options s (open_atomic os fs dav path options s')
    unfolding open_atomic create_temp fspath
    open_atomic-OpenedResult s s' kept =
        let dir = Option.get_or (parent target) fs.root in
        let name = Option.get_or (file_name target) (text "file") in
        if-OpenedResult os laws creates target fs dav options s s'
          (options.create_new && os.exists target s') exists _
          (if-OpenedResult os laws creates target fs dav options s s' (os.is_dir target s')
            forbidden _
            (if-OpenedResult os laws creates target fs dav options s s'
              (is_too_big os fs dav options.size (free_space os dir s')) insufficient_storage _
              (wrap_temp-OpenedResult os laws creates target fs dav options s _
                (try_temps-FreshResult os laws creates target dir name apart 16 0 s s' kept))))

    after_parent-OpenedResult :
        (s : os.State) (w : FsResult (Unit {0}) × os.State)
        → laws.content target w.1 ≡ laws.content target s
        → OpenedResult os laws creates target fs options s (after_parent os fs dav path options w)
    after_parent-OpenedResult s (failed e, t) kept = tt
    after_parent-OpenedResult s (done _, t) kept =
        elim (Bool-cases
          (fs.atomic_writes && options.write && options.create && options.truncate)) [
            | inl whole ↦ rw whole (open_atomic-OpenedResult s t kept)
            | inr plain ↦ rw plain (
                wrap_inner-OpenedResult os laws creates target fs dav options s
                  (dav.open_inner path options t))
          ]

    open_file-OpenedResult :
        (s : os.State)
        → OpenedResult os laws creates target fs options s (open_file os fs dav path options s)
    unfolding open_file
    open_file-OpenedResult s = after_parent-OpenedResult s _ (
        if-content os laws creates target fs dav options s (options.write && options.create) _
          (done tt, s) (ensure_parent-content os laws creates target fs dav options path s) refl)

    -- Where `open` gives an atomic file to upload to, whatever fails on the way, the upload is an
    -- atomic put for those who read the path: once the file was dropped they are given the whole body
    -- if it counts as published, and what was there before `open` if it does not; and what was there
    -- before is what they are given as long as pieces of the body are being written.
    pub open_file-atomic_put :
        (h : Hashing) (body : List (List ℕ)) (s t : os.State) (f : AtomicFile)
        → open_file os fs dav path options s ≡ (done (atomic f), t)
        → let (g, u) = put h os body f t in
          (laws.content target u ≡ atomic_put g.committed (flatten body) (laws.content target s))
          × (laws.content target (send h os body f t).2 ≡ laws.content target s)
    open_file-atomic_put h body s t f opened =
        let (temp, handle, made, fresh) = rw opened at (open_file-OpenedResult s) in
        let (whole, during) =
          put-atomic_put h os laws temp target fresh.apart body options.size options.checksum handle
            fs.fsync t fresh.at_end fresh.empty in
        rw made (
          whole
              ∙ ap
                  (λ old.
                    atomic_put
                      (put h os body (new temp target options.size options.checksum handle fs.fsync)
                        t).0.committed
                      (flatten body) old)
                  fresh.kept,
          during ∙ fresh.kept,
        )
