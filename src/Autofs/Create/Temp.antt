-- ===== src/Autofs/Create/Temp.antt =====
-- Which temporary file an upload gets: `create_temp` of src/autofs.rs.
use mathlib.Core.Option
use mathlib.Core.Path.{subst}
use native.Mathlib.Numerals.{add-one}
use web_davs_zk.Common.{
  ℕ, zero, suc, ◌+◌, ◌<◌, ◌≡◌, ◌⊎◌, refl, ap, ◌∙◌, inl, inr, true, false, Bool-cases, arith,
}
use web_davs_zk.Common.Text.{Text, text}
use web_davs_zk.Io.{Os, IoError, Result, ok, err, is_already_exists}
use web_davs_zk.Io.Paths.{file_name}
use web_davs_zk.Autofs.Upload.{FsResult, done, failed, exists, from_io}
use web_davs_zk.Autofs.Create.{temp_candidate, try_temps, create_temp}

-- A call of `create_new` that fails has changed nothing.
abbrev pub CreateNewIsClean : Os → Type 0
CreateNewIsClean os =
    (path : Text) (s t : os.State) (e : IoError) → os.create_new path s ≡ (err e, t) → t ≡ s

answer_cases :
    {State : Type 0} (x : Result ℕ × State)
    → ((n : ℕ) × (t : State) × (x ≡ (ok n, t))) ⊎ ((e : IoError) × (t : State) × (x ≡ (err e, t)))
answer_cases (ok n, t) = inl (n, t, refl)
answer_cases (err e, t) = inr (e, t, refl)

module _ (os : Os) (clean : CreateNewIsClean os) (dir name : Text) (s : os.State) where
  abbrev pub Refused : ℕ → IoError → Type 0
  Refused i e = os.create_new (temp_candidate os dir name i) s ≡ (err e, s)

  -- The candidates below `n` are all taken.
  abbrev pub Taken : ℕ → Type 0
  Taken zero = Unit {0}
  Taken (suc n) = Taken n × ((e : IoError) × Refused n e × (is_already_exists e ≡ true))

  -- The three ways in which the loop can end, from the candidate `i` on, of those below `n`.
  pub data Ends (n : ℕ) (r : FsResult (Text × ℕ) × os.State) : Type 0 where
    found :
        (j handle : ℕ) (t : os.State)
        → j < n
        → Taken j
        → os.create_new (temp_candidate os dir name j) s ≡ (ok handle, t)
        → r ≡ (done (temp_candidate os dir name j, handle), t)
        → Ends n r
    all_taken : Taken n → r ≡ (failed exists, s) → Ends n r
    broken :
        (j : ℕ) (e : IoError)
        → j < n
        → Taken j
        → Refused j e
        → is_already_exists e ≡ false
        → r ≡ (failed (from_io e), s)
        → Ends n r

  try_temps-Ends : (left i n : ℕ) → i + left ≡ n → Taken i → Ends n (try_temps os left i dir name s)
  unfolding try_temps
  try_temps-Ends zero i n e taken = all_taken (subst (λ k. Taken k) (omega arith) taken) refl
  try_temps-Ends (suc left) i n e taken =
      elim (answer_cases (os.create_new (temp_candidate os dir name i) s)) [
        | inl (handle, t, made) ↦
            found i handle t (omega arith) taken made (rw (made, try_temps) (rw made))
        | inr (error, t, raw) ↦
            let refused : Refused i error =
              raw ∙ ap (λ u. (err error, u)) (clean _ s t error raw) in
            elim (Bool-cases (is_already_exists error)) [
              | inl again ↦
                  rw (refused, try_temps)
                    (rw (again, refused)
                      (try_temps-Ends left (i + 1) n (omega arith)
                        (rw add-one (taken, (error, refused, again)))))
              | inr other ↦
                  broken i error (omega arith) taken refused other
                    (rw (refused, try_temps) (rw (other, refused)))
            ]
      ]

-- `create_temp` tries `{name}.uploading.nzk_webdavs` and then the same with `.1` to `.15`, next to
-- the target. It returns the first of them that can be created, it fails with `Exists` and changes
-- nothing if all 16 exist, and it fails at once on another error; candidates before are all taken.
pub create_temp-Ends :
    (os : Os) (clean : CreateNewIsClean os) (dir target : Text) (s : os.State)
    → Ends os clean dir
        (Option.get_or (file_name target) (text "file"))
        s
        16
        (create_temp os dir target s)
unfolding create_temp
create_temp-Ends os clean dir target s = try_temps-Ends os clean dir _ s 16 0 16 (omega arith) tt
