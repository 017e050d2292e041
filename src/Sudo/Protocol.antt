-- ===== src/Sudo/Protocol.antt =====
-- What the answers of src/bin/file-mover-sudo.rs tell of a deletion.
use web_davs_zk.Common.{
  ℕ, true, [], ◌∷◌, ◌≡◌, ◌↔◌, ◌⊎◌, inl, inr, refl, arith, list_beq, if◌then◌else◌,
}
use web_davs_zk.Common.Text.{Text, text}
use web_davs_zk.Io.{Os, IoError, Result, ok, err, Metadata, is_ok}
use web_davs_zk.Json.{Serde, SerdeLaws}
use web_davs_zk.Mover.Names.{Env}
use web_davs_zk.Mover.Requests.{SpawnSudo}
use web_davs_zk.Mover.Start.{of_deletion}
use web_davs_zk.Sudo.{Answer, answered, refused, finish, run_delete, printed}

module _ (os : Os) (env : Env) (j : Serde) (laws : SerdeLaws j) (spawn_sudo : SpawnSudo os) where
  open laws use {from_str-to_string, get-object}

  -- The call that removes the file or the tree at a path.
  abbrev pub remove : Metadata → Text → os.State → Result (Unit {0}) × os.State
  remove md p s = if md.is_dir then os.remove_dir_all p s else os.remove_file p s

  -- The status of the reply that the server makes of an answer.
  abbrev pub deletion_status : Answer j.Value → ℕ
  deletion_status a = (of_deletion os env j spawn_sudo 0 (j.from_str (printed os j a))).status

  deletion_status-answered :
      deletion_status (answered (j.object ((text "ok", j.boolean true) ∷ []))) ≡ 200
  unfolding list_beq
  deletion_status-answered = ground (
    arith,
    from_str-to_string (j.object ((text "ok", j.boolean true) ∷ [])),
    get-object (text "ok") ((text "ok", j.boolean true) ∷ []),
  )

  deletion_status-refused : (e : Text) → deletion_status (refused e) ≡ 403
  unfolding list_beq
  deletion_status-refused e = ground (
    arith,
    from_str-to_string (j.object ((text "error", j.string e) ∷ [])),
    get-object (text "ok") ((text "error", j.string e) ∷ []),
  )

  finished :
      (r : Result (Unit {0}) × os.State)
      → (deletion_status (finish os j (j.object ((text "ok", j.boolean true) ∷ [])) r).0 ≡ 200)
        ↔ (is_ok r.0 ≡ true)
  finished (ok u, s) = (λ _. refl, λ _. deletion_status-answered)
  finished (err e, s) = (λ q. ground (arith, deletion_status-refused e.message), λ q. cc)

  result_cases :
      {A : Type 0} (r : Result A) → ((a : A) × (r ≡ ok a)) ⊎ ((e : IoError) × (r ≡ err e))
  result_cases (ok a) = inl (a, refl)
  result_cases (err e) = inr (e, refl)

  -- The server replies 200 to the helper's answer to a deletion exactly if there is something at the
  -- path and the call that removes the file or the tree succeeds.
  pub of_deletion-run_delete :
      (p : Text) (s : os.State)
      → (deletion_status (run_delete os j p s).0 ≡ 200)
        ↔ ((md : Metadata) × (os.symlink_metadata p s ≡ ok md) × (is_ok (remove md p s).0 ≡ true))
  unfolding run_delete
  of_deletion-run_delete p s = elim (result_cases (os.symlink_metadata p s)) [
    | inr (e, missing) ↦ (
      λ q.
          let at : (run_delete os j p s).0 ≡ refused e.message = rw (missing, run_delete) refl in
          let bad : deletion_status (run_delete os j p s).0 ≡ 403 =
            rw at (deletion_status-refused e.message) in
          ground (arith, q, bad),
      λ (md, found, _). cc,
    )
    | inl (md, found) ↦
        let at : run_delete os j p s
            ≡ finish os j (j.object ((text "ok", j.boolean true) ∷ [])) (remove md p s) =
          rw (found, run_delete) refl in
        let same = finished (remove md p s) in
        (
          λ q. (md, found, same.0 (rw at at q)),
          λ (md', found', removed).
              let eq : md' ≡ md = ground (arith, found, found') in
              rw at (same.1 (rw eq at removed)),
        )
  ]
