-- ===== src/Mover/Jobs.antt =====
-- The registry of background jobs in src/bin/file-mover.rs.
pub mod Unique
use mathlib.Core.Option
use web_davs_zk.Common.{
  ℕ, ◌+◌, ◌%◌, ◌^◌, ◌-◌, Bool, true, false, Option, none, some, List, [], ◌∷◌, ◌++◌, ◌&&◌, ◌||◌,
  ◌==◌, nat_eq, list_eq, length, ltb, if◌then◌else◌,
}
use web_davs_zk.Common.Text.{Text}

-- The texts that the source keeps in `op` and `status`.
pub data Op : Type 0 where
  move_op copy_op delete_op : Op

pub data Status : Type 0 where
  queued running done error : Status

abbrev pub op_beq : Op → Op → Bool
op_beq move_op move_op = true
op_beq copy_op copy_op = true
op_beq delete_op delete_op = true
op_beq _ _ = false

abbrev pub is_move : Op → Bool
is_move move_op = true
is_move _ = false

abbrev pub is_delete : Op → Bool
is_delete delete_op = true
is_delete _ = false

-- `status == "queued" || status == "running"`
abbrev pub is_active : Status → Bool
is_active queued = true
is_active running = true
is_active _ = false

pub record Job : Type 0 where
  pub op : Op
  pub src : Text
  pub dst : Text
  pub total_files : ℕ
  pub done_files : ℕ
  pub total_dirs : ℕ
  pub done_dirs : ℕ
  pub total_bytes : ℕ
  pub done_bytes : ℕ
  pub current : List Text
  pub status : Status
  pub error : Option Text

-- The map from ids to jobs, in the order in which it is iterated.
abbrev pub Jobs : Type 0
Jobs = List (ℕ × Job)

unfoldable pub get : ℕ → Jobs → Option Job
get id [] = none
get id ((i, j) ∷ m) = if i == id then some j else get id m

unfoldable pub insert : ℕ → Job → Jobs → Jobs
insert id job [] = (id, job) ∷ []
insert id job ((i, j) ∷ m) =
    let rest = insert id job m in if i == id then (id, job) ∷ m else (i, j) ∷ rest

-- `job_update`: nothing happens if the id is not there.
unfoldable pub job_update : ℕ → (Job → Job) → Jobs → Jobs
job_update id f [] = []
job_update id f ((i, j) ∷ m) =
    let rest = job_update id f m in if i == id then (i, f j) ∷ m else (i, j) ∷ rest

abbrev pub new_job : Op → Text → Text → Job
new_job op src dst = record {
  op = op;
  src = src;
  dst = dst;
  total_files = 0;
  done_files = 0;
  total_dirs = 0;
  done_dirs = 0;
  total_bytes = 0;
  done_bytes = 0;
  current = [];
  status = queued;
  error = none;
}

-- The work of the new request is already queued or running as `j`.
unfoldable pub is_duplicate : Op → Text → Text → Job → Bool
is_duplicate op src dst j =
    is_active j.status && (op_beq j.op op && (j.src == src && (is_move op || j.dst == dst)))

unfoldable pub find_duplicate : Op → Text → Text → Jobs → Option ℕ
find_duplicate op src dst [] = none
find_duplicate op src dst ((i, j) ∷ m) =
    let rest = find_duplicate op src dst m in if is_duplicate op src dst j then some i else rest

-- The section of `handle_move_copy` under the lock: the id of a job that does the work already, or
-- the new job under `id`.
unfoldable pub register : ℕ → Op → Text → Text → Jobs → Option ℕ × Jobs
unfolding find_duplicate insert
register id op src dst m = elim (find_duplicate op src dst m) [
  | some eid ↦ (some eid, m)
  | none ↦ (none, insert id (new_job op src dst) m)
]

-- `fetch_add(1)`
abbrev pub next_u64 : ℕ → ℕ
next_u64 n = (n + 1) % 2 ^ 64

-- `current.push(path)`, and the oldest goes where more than six are left.
abbrev drop_oldest : List Text → List Text
drop_oldest [] = []
drop_oldest (p ∷ ps) = if ltb 6 (length (p ∷ ps)) then ps else p ∷ ps

unfoldable pub note_current : Text → Job → Job
note_current path j = record j { current = drop_oldest (j.current ++ path ∷ []) }
