-- ===== src/Mover/Start.antt =====
-- `handle_move_copy` and `handle_delete` of src/bin/file-mover.rs, which start jobs.
pub mod Queue
pub mod Conflict
use mathlib.Core.Option
use web_davs_zk.Common.{
  ℕ, Bool, true, false, Option, none, some, List, [], ◌∷◌, ◌++◌, ◌||◌, not, ◌==◌, nat_eq, list_eq,
  if◌then◌else◌,
}
use web_davs_zk.Common.Text.{Text, text}
use web_davs_zk.Io.{Os, Result, ok, err}
use web_davs_zk.Io.Paths.{same_path}
use web_davs_zk.Json.{Serde, text_at, text_field}
use web_davs_zk.Mover.Jobs.{Op, move_op, copy_op, delete_op, new_job, insert, register, next_u64}
use web_davs_zk.Mover.Names.{Env, resolve_path, dest_for, free_dst}
use web_davs_zk.Mover.Requests.{Reply, Server, SpawnSudo, sudo_run, error_reply, bad_password}

-- `op_name`
abbrev pub op_name : Op → Text
op_name move_op = text "move"
op_name copy_op = text "copy"
op_name delete_op = text "delete"

module _ (os : Os) (env : Env) (j : Serde) (spawn_sudo : SpawnSudo os) where
  open j use {Value, boolean, number, string, object}

  abbrev pub Handled : Type 0
  Handled = Reply Value × Server os.State

  abbrev fail_with : ℕ → Text → Server os.State → Handled
  fail_with status message st = (error_reply os env j spawn_sudo status message, st)

  abbrev pub parse_body :
      Result Text → (Value → Server os.State → Handled) → Server os.State → Handled
  parse_body (err e) handle st = fail_with 400 e.message st
  parse_body (ok bytes) handle st = elim (j.from_str bytes) [
    | none ↦ fail_with 400 (text "bad json") st
    | some v ↦ handle v st
  ]

  -- The place for the file or tree, or `none` where the strategy does not say what to do.
  unfoldable pub choose : Text → Text → os.State → Option Text
  choose strategy dst s =
      if not (os.exists dst s)
      then some dst
      else if strategy == text "rename"
      then some (free_dst os dst s)
      else if strategy == text "merge" || strategy == text "overwrite"
      then some dst
      else none

  abbrev pub transfer_request : Op → Text → Text → Text → Value
  transfer_request op src dst strategy = object (
      (text "op", string (op_name op))
      ∷ (text "src", string src)
      ∷ (text "dst", string dst)
      ∷ (text "strategy", string strategy)
      ∷ [])

  abbrev pub conflict_reply : Text → Text → Reply Value
  conflict_reply message dst = record {
    status = 409;
    body = object (
        (text "error", string message)
        ∷ (text "conflict", boolean true)
        ∷ (text "dst", string dst)
        ∷ []);
  }

  abbrev pub transferred : Op → Text → Reply Value
  transferred op dst = record {
    status = 200;
    body = object (
        (text "ok", boolean true)
        ∷ (text "op", string (op_name op))
        ∷ (text "dst", string dst)
        ∷ []);
  }

  -- An output of the helper that has no text under `dst`.
  abbrev without_dst : Value → Reply Value
  without_dst v = elim (j.get (text "conflict") v) [
    | none ↦ bad_password os env j spawn_sudo
    | some _ ↦ conflict_reply (text "destination exists") (text_field j (text "dst") v)
  ]

  abbrev pub of_output : Op → Option Value → Reply Value
  of_output op none = bad_password os env j spawn_sudo
  of_output op (some v) = elim (text_at j (text "dst") v) [
    | some d ↦ transferred op d
    | none ↦ without_dst v
  ]

  -- What the answer of the helper is turned into.
  unfoldable pub elevated_reply : Op → ℕ × Text → Reply Value
  elevated_reply op (rc, out) =
      if rc == 0 then of_output op (j.from_str out) else bad_password os env j spawn_sudo

  abbrev elevated : Op → (ℕ × Text) × os.State → Server os.State → Handled
  elevated op (answer, s) st = (elevated_reply op answer, record st { fs = s })

  abbrev pub queued_reply : Op → ℕ → Reply Value
  queued_reply op id = record {
    status = 202;
    body = object (
        (text "ok", boolean true)
        ∷ (text "job_id", number id)
        ∷ (text "op", string (op_name op))
        ∷ []);
  }

  abbrev pub deduped_reply : Op → ℕ → Reply Value
  deduped_reply op eid = record {
    status = 202;
    body = object (
        (text "ok", boolean true)
        ∷ (text "job_id", number eid)
        ∷ (text "op", string (op_name op))
        ∷ (text "deduped", boolean true)
        ∷ []);
  }

  -- From `fetch_add` on: a job that does the work already, or a new one.
  unfoldable pub enqueue : Op → Text → Text → Server os.State → Handled
  enqueue op src dst st =
      let id = st.next_id in
      let counted = record st { next_id = next_u64 id } in
      let (known, jobs) = register id op src dst st.jobs in
      elim known [
        | some eid ↦ (deduped_reply op eid, counted)
        | none ↦ (
          queued_reply op id,
          record counted {
            jobs = jobs;
            tasks = st.tasks ++ record { id = id; op = op; src = src; dst = dst } ∷ [];
          },
        )
      ]

  abbrev pub transfer_to : Op → Text → Text → Text → Text → Option Text → Server os.State → Handled
  transfer_to op sp src strategy taken none st =
      (conflict_reply (text "destination exists: " ++ taken) taken, st)
  transfer_to op sp src strategy taken (some dst) st =
      if not (sp == [])
      then elevated op
          (sudo_run os env j spawn_sudo sp (transfer_request op src dst strategy) st.fs) st
      else enqueue op src dst st

  unfoldable pub transfer_value : Op → Value → Server os.State → Handled
  transfer_value op v st =
      let src = text_field j (text "src") v in
      let dst = text_field j (text "dst") v in
      let sp = text_field j (text "sudopass") v in
      let strategy = text_field j (text "strategy") v in
      let final_dst = dest_for os src dst st.fs in
      if src == [] || dst == []
      then fail_with 400 (text "bad path") st
      else if same_path src final_dst
      then fail_with 400 (text "source and destination are the same") st
      else if not (os.exists src st.fs)
      then fail_with 404 (text "source missing") st
      else transfer_to op sp src strategy final_dst (choose strategy final_dst st.fs) st

  unfoldable pub handle_move_copy : Result Text → Bool → Server os.State → Handled
  handle_move_copy body is_move st =
      parse_body body (transfer_value (if is_move then move_op else copy_op)) st

  abbrev pub delete_request : Text → Value
  delete_request p = object ((text "op", string (text "delete")) ∷ (text "src", string p) ∷ [])

  abbrev pub of_deletion : ℕ → Option Value → Reply Value
  of_deletion rc none = bad_password os env j spawn_sudo
  of_deletion rc (some v) =
      let deleted : Reply Value = elim (j.get (text "ok") v) [
        | none ↦ bad_password os env j spawn_sudo
        | some _ ↦ record { status = 200; body = object ((text "ok", boolean true) ∷ []) }
      ] in
      if rc == 0 then deleted else bad_password os env j spawn_sudo

  abbrev delete_elevated : (ℕ × Text) × os.State → Server os.State → Handled
  delete_elevated ((rc, out), s) st = (of_deletion rc (j.from_str out), record st { fs = s })

  abbrev queue_delete : Text → Server os.State → Handled
  queue_delete p st = (
    queued_reply delete_op st.next_id,
    record st {
      next_id = next_u64 st.next_id;
      jobs = insert st.next_id (new_job delete_op p []) st.jobs;
      tasks = st.tasks ++ record { id = st.next_id; op = delete_op; src = p; dst = [] } ∷ [];
    },
  )

  unfoldable pub delete_value : Value → Server os.State → Handled
  unfolding sudo_run
  delete_value v st =
      let src = text_field j (text "src") v in
      let sp = text_field j (text "sudopass") v in
      let p = resolve_path env src in
      let found : Handled = elim (os.symlink_metadata p st.fs) [
        | err e ↦ fail_with 404 e.message st
        | ok _ ↦
            if not (sp == [])
            then delete_elevated (sudo_run os env j spawn_sudo sp (delete_request p) st.fs) st
            else queue_delete p st
      ] in
      if src == [] then fail_with 400 (text "bad request") st else found

  unfoldable pub handle_delete : Result Text → Server os.State → Handled
  handle_delete body st = parse_body body delete_value st
