-- ===== src/Imports/Sound.antt =====
-- The invariant of the import jobs and of the coordinator's tasks, and how a change of every row by
-- itself keeps it.
use open_llmops.Prelude.{
  ℕ, String, ◌≡◌, ◌∙◌, ap, refl, sym, subst, Bool, true, false, not, ◌&&◌, some, none, List, [],
  ◌∷◌, ◌==◌, nat_eq, map, Memᴰ, All, All-mem, IsDistinct, any, All-map,
}
use open_llmops.Imports.Table.{ModelImportJob, touched, is_active_import, is_finished, is_ready}
use open_llmops.Imports.Coordinator.{Task, Coordinator}

abbrev pub Jobs : Type 0
Jobs = List ModelImportJob

-- An execution of the job has begun and has not ended.
abbrev pub is_running : ℕ → List Task → Bool
is_running i tasks = any (λ t. t.job_id == i && not t.is_done) tasks

-- A job that is executed is active and claimed by the coordinator.
abbrev pub IsTended : String → List Task → ModelImportJob → Type 0
IsTended worker tasks j =
    is_running j.id tasks ≡ true → (is_active_import j.status ≡ true) × (j.claimed_by ≡ some worker)

-- Only a job that is ready has a result.
abbrev pub IsSettled : ModelImportJob → Type 0
IsSettled j = is_ready j.status ≡ false → j.result_asset_id ≡ none

abbrev pub IsGood : String → List Task → ModelImportJob → Type 0
IsGood worker tasks j = IsTended worker tasks j × IsSettled j

abbrev pub ids : Jobs → List ℕ
ids jobs = map (λ j. j.id) jobs

-- No key stands twice, and every row is good.
abbrev pub AreSound : String → List Task → Jobs → Type 0
AreSound worker tasks jobs = IsDistinct (ids jobs) × All (IsGood worker tasks) jobs

abbrev pub IsSound : Coordinator → Type 0
IsSound c = AreSound c.worker_id c.tasks c.store.jobs

-- The same row, with another time of its last `UPDATE`.
abbrev pub IsSame : ModelImportJob → ModelImportJob → Type 0
IsSame j k = k ≡ touched k.updated_at j

pub IsSame-touched : (now : ℕ) (j k : ModelImportJob) → k ≡ touched now j → IsSame j k
IsSame-touched now j k e = e ∙ ap (λ (z : ModelImportJob). touched z.updated_at j) (sym e)

-- The jobs that are ready, failed or canceled stay in the table; only the time of the last `UPDATE` may
-- be another one.
abbrev pub AreKept : Jobs → Jobs → Type 0
AreKept jobs jobs' =
    (j : ModelImportJob)
    → Memᴰ j jobs
    → is_finished j.status ≡ true
    → (k : ModelImportJob) × Memᴰ k jobs' × IsSame j k

pub AreKept_trans : (a b c : Jobs) → AreKept a b → AreKept b c → AreKept a c
AreKept_trans a b c f g j m h =
    let (k, n, e) = f j m h in
    let (l, o, e') = g k n (rw e h) in (l, o, e' ∙ ap (touched l.updated_at) e)

module _ (g : ModelImportJob → ModelImportJob) where
  mem-map : (j : ModelImportJob) (jobs : Jobs) → Memᴰ j jobs → Memᴰ (g j) (map g jobs)
  mem-map j [] m = elim m [ ]
  mem-map j (k ∷ jobs) (Memᴰ.head h) = Memᴰ.head (ap g h)
  mem-map j (k ∷ jobs) (Memᴰ.tail m) = Memᴰ.tail (mem-map j jobs m)

  ids-map : ((j : ModelImportJob) → (g j).id ≡ j.id) → (jobs : Jobs) → ids (map g jobs) ≡ ids jobs
  ids-map e [] = refl
  ids-map e (j ∷ jobs) = rw (e j, ids-map e jobs)

  All-changed {κ μ} :
      (P : ModelImportJob → Type κ) (Q : ModelImportJob → Type μ)
      → (jobs : Jobs) → ((j : ModelImportJob) → Memᴰ j jobs → P j → Q (g j))
      → All P jobs
      → All Q (map g jobs)
  All-changed P Q [] f h = tt
  All-changed P Q (j ∷ jobs) f h =
      (f j (Memᴰ.head refl) h.0, All-changed P Q jobs (λ k m. f k (Memᴰ.tail m)) h.1)

  -- A change of every row that keeps its key, keeps it good, and keeps it if it is finished.
  pub changed-AreSound :
      (w w' : String) (tasks tasks' : List Task) (jobs : Jobs)
      → ((j : ModelImportJob) → (g j).id ≡ j.id)
      → ((j : ModelImportJob) → Memᴰ j jobs → IsGood w tasks j → IsGood w' tasks' (g j))
      → AreSound w tasks jobs
      → AreSound w' tasks' (map g jobs)
  changed-AreSound w w' tasks tasks' jobs same good (distinct, rows) = (
    subst IsDistinct (sym (ids-map same jobs)) distinct,
    All-changed (IsGood w tasks) (IsGood w' tasks') jobs good rows,
  )

  pub changed-AreKept :
      (w : String) (tasks : List Task) (jobs : Jobs)
      → ((j : ModelImportJob)
          → Memᴰ j jobs
          → IsGood w tasks j
          → is_finished j.status ≡ true
          → IsSame j (g j))
      → AreSound w tasks jobs
      → AreKept jobs (map g jobs)
  changed-AreKept w tasks jobs fixed (distinct, rows) j m h =
      (g j, mem-map j jobs m, fixed j m (All-mem (IsGood w tasks) jobs j rows m) h)

-- Fewer executions, and the same coordinator.
pub fewer-AreSound :
    (w : String) (tasks tasks' : List Task) (jobs : Jobs)
    → ((i : ℕ) → is_running i tasks' ≡ true → is_running i tasks ≡ true)
    → AreSound w tasks jobs
    → AreSound w tasks' jobs
fewer-AreSound w tasks tasks' jobs fewer (distinct, rows) =
    (distinct, All-map (λ j good. ((λ run. good.0 (fewer j.id run)), good.1)) jobs rows)
