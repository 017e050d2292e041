-- ===== src/Mover/Jobs/Unique.antt =====
-- No two jobs of src/bin/file-mover.rs do the same work at one time.
use web_davs_zk.Common.{
  ℕ, ◌≡◌, ◌⊎◌, refl, Bool, true, false, Bool-cases, none, some, Option-cases, [], ◌∷◌, ◌&&◌, ◌||◌,
  ◌==◌, nat_eq, list_eq, list_beq_iff, not, arith, inl, inr,
}
use web_davs_zk.Common.Text.{Text}
use web_davs_zk.Mover.Jobs.{
  Op, delete_op, Status, queued, running, op_beq, is_move, is_delete, is_active, Job, Jobs, get,
  insert, job_update, new_job, is_duplicate, find_duplicate, register, next_u64,
}

-- Two jobs do the same work: both are active, and they move one source, or copy it to one place.
abbrev pub conflicts : Job → Job → Bool
conflicts j k =
    is_active j.status
    && (is_active k.status
        && (op_beq j.op k.op
            && (not (is_delete k.op) && (j.src == k.src && (is_move k.op || j.dst == k.dst)))))

abbrev Clear : Job → Jobs → Type 0
Clear j [] = Unit {0}
Clear j ((i, k) ∷ m) = (conflicts j k ≡ false) × (conflicts k j ≡ false) × Clear j m

-- No two entries of the map conflict.
abbrev pub NoConflict : Jobs → Type 0
NoConflict [] = Unit {0}
NoConflict ((i, j) ∷ m) = Clear j m × NoConflict m

find_duplicate-Clear :
    (op : Op) (src dst : Text) (m : Jobs)
    → find_duplicate op src dst m ≡ none
    → Clear (new_job op src dst) m
unfolding find_duplicate is_duplicate
find_duplicate-Clear op src dst [] e = tt
find_duplicate-Clear op src dst ((i, j) ∷ m) e = ground (
  arith,
  list_beq_iff j.src src,
  list_beq_iff src j.src,
  list_beq_iff j.dst dst,
  list_beq_iff dst j.dst,
  find_duplicate-Clear op src dst m,
)

delete-Clear : (src : Text) (m : Jobs) → Clear (new_job delete_op src []) m
delete-Clear src [] = tt
delete-Clear src ((i, j) ∷ m) = ground (arith, delete-Clear src m)

Clear-insert :
    (id : ℕ) (k job : Job) (m : Jobs)
    → conflicts k job ≡ false
    → conflicts job k ≡ false
    → Clear k m
    → Clear k (insert id job m)
unfolding insert
Clear-insert id k job [] a b c = (a, b, tt)
Clear-insert id k job ((i, j) ∷ m) a b c = elim (Bool-cases (i == id)) [
  | inl here ↦ rw here (a, b, c.2)
  | inr later ↦ rw later (c.0, c.1, Clear-insert id k job m a b c.2)
]

insert-NoConflict :
    (id : ℕ) (job : Job) (m : Jobs) → Clear job m → NoConflict m → NoConflict (insert id job m)
unfolding insert
insert-NoConflict id job [] c n = (tt, tt)
insert-NoConflict id job ((i, j) ∷ m) c n = elim (Bool-cases (i == id)) [
  | inl here ↦ rw here (c.2, n.1)
  | inr later ↦ rw later (Clear-insert id j job m c.1 c.0 n.0, insert-NoConflict id job m c.2 n.1)
]

-- An update that keeps what the job is about, and does not make it active again.
abbrev pub IsCalm : (Job → Job) → Job → Type 0
IsCalm f j =
    ((f j).op ≡ j.op)
    × ((f j).src ≡ j.src)
    × ((f j).dst ≡ j.dst)
    × ((is_active (f j).status ≡ false) ⊎ (is_active j.status ≡ true))

calm_tests :
    (x x' y p q : Bool)
    → (x' ≡ false) ⊎ (x ≡ true)
    → (x && (y && p)) ≡ false
    → (y && (x && q)) ≡ false
    → ((x' && (y && p)) ≡ false) × ((y && (x' && q)) ≡ false)
calm_tests x x' y p q calm a b = ground arith

conflicts_calm :
    (f : Job → Job) (j k : Job)
    → IsCalm f j
    → conflicts j k ≡ false
    → conflicts k j ≡ false
    → (conflicts (f j) k ≡ false) × (conflicts k (f j) ≡ false)
conflicts_calm f j k (op, src, dst, calm) a b =
    rw (op, src, dst)
      (calm_tests (is_active j.status) (is_active (f j).status) (is_active k.status) _ _ calm a b)

Clear-calm : (f : Job → Job) (j : Job) (m : Jobs) → IsCalm f j → Clear j m → Clear (f j) m
Clear-calm f j [] calm c = tt
Clear-calm f j ((i, k) ∷ m) calm c =
    let r = conflicts_calm f j k calm c.0 c.1 in (r.0, r.1, Clear-calm f j m calm c.2)

Clear-job_update :
    (id : ℕ) (f : Job → Job) (k : Job) (m : Jobs)
    → ((j : Job) → get id m ≡ some j → IsCalm f j)
    → Clear k m
    → Clear k (job_update id f m)
unfolding job_update get
Clear-job_update id f k [] calm c = tt
Clear-job_update id f k ((i, j) ∷ m) calm c = elim (Bool-cases (i == id)) [
  | inl here ↦ let r = conflicts_calm f j k (calm j (rw here)) c.1 c.0 in rw here (r.1, r.0, c.2)
  | inr later ↦ rw later (c.0, c.1, Clear-job_update id f k m (λ l e. calm l (rw later e)) c.2)
]

job_update-NoConflict :
    (id : ℕ) (f : Job → Job) (m : Jobs)
    → ((j : Job) → get id m ≡ some j → IsCalm f j)
    → NoConflict m
    → NoConflict (job_update id f m)
unfolding job_update get
job_update-NoConflict id f [] calm n = tt
job_update-NoConflict id f ((i, j) ∷ m) calm n = elim (Bool-cases (i == id)) [
  | inl here ↦ rw here (Clear-calm f j m (calm j (rw here)) n.0, n.1)
  | inr later ↦ rw later (
    Clear-job_update id f j m (λ l e. calm l (rw later e)) n.0,
    job_update-NoConflict id f m (λ l e. calm l (rw later e)) n.1,
  )
]

pub register-NoConflict :
    (id : ℕ) (op : Op) (src dst : Text) (m : Jobs)
    → NoConflict m
    → NoConflict (register id op src dst m).1
unfolding register
register-NoConflict id op src dst m n = elim (Option-cases (find_duplicate op src dst m)) [
  | inl fresh ↦
      rw (fresh, register)
        (insert-NoConflict id (new_job op src dst) m (find_duplicate-Clear op src dst m fresh) n)
  | inr (eid, known) ↦ rw (known, register) n
]

-- The counter of ids and the map, which all threads share.
pub record Registry : Type 0 where
  pub next_id : ℕ
  pub jobs : Jobs

-- What one thread does to them at a time: a request takes an id; later, under the lock, it
-- registers a move or a copy, or a deletion; a job is begun once, reports, and ends.
pub data Step (r : Registry) : Registry → Type 0 where
  take_id : Step r (record r { next_id = next_u64 r.next_id })
  request :
      (id : ℕ) (op : Op) (src dst : Text)
      → Step r (record r { jobs = (register id op src dst r.jobs).1 })
  request_delete :
      (id : ℕ) (src : Text)
      → Step r (record r { jobs = insert id (new_job delete_op src []) r.jobs })
  begin :
      (id : ℕ) (j : Job)
      → get id r.jobs ≡ some j
      → j.status ≡ queued
      → Step r (record r { jobs = job_update id (λ k. record k { status = running }) r.jobs })
  report :
      (id : ℕ) (f : Job → Job)
      → ((j : Job)
          → ((f j).op ≡ j.op)
            × ((f j).src ≡ j.src)
            × ((f j).dst ≡ j.dst)
            × ((f j).status ≡ j.status))
      → Step r (record r { jobs = job_update id f r.jobs })
  finish :
      (id : ℕ) (final : Status)
      → is_active final ≡ false
      → Step r (record r { jobs = job_update id (λ k. record k { status = final }) r.jobs })

pub data Reach : Registry → Type 0 where
  start : Reach (record { next_id = 1; jobs = [] })
  later : {r s : Registry} → Reach r → Step r s → Reach s

status_cases : (s : Status) → (is_active s ≡ false) ⊎ (is_active s ≡ true)
status_cases s = ground arith

Step-NoConflict : {r s : Registry} → Step r s → NoConflict r.jobs → NoConflict s.jobs
Step-NoConflict take_id n = n
Step-NoConflict {r} (request id op src dst) n = register-NoConflict id op src dst r.jobs n
Step-NoConflict {r} (request_delete id src) n =
    insert-NoConflict id _ r.jobs (delete-Clear src r.jobs) n
Step-NoConflict {r} (begin id j e q) n =
    job_update-NoConflict id _ r.jobs (λ k found. (refl, refl, refl, inr (ground arith))) n
Step-NoConflict {r} (report id f keeps) n =
    job_update-NoConflict id f r.jobs
      (λ k found.
        let (op, src, dst, same) = keeps k in (op, src, dst, rw same (status_cases k.status)))
      n
Step-NoConflict {r} (finish id final off) n =
    job_update-NoConflict id _ r.jobs (λ k found. (refl, refl, refl, inl off)) n

-- In every state that any interleaving of requests and running jobs can reach, no two queued or
-- running jobs move the same source, or copy the same source to the same destination.
pub Reach-NoConflict : {r : Registry} → Reach r → NoConflict r.jobs
Reach-NoConflict start = tt
Reach-NoConflict (later r st) = Step-NoConflict st (Reach-NoConflict r)
