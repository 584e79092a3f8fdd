-- ===== src/Imports/Claiming.antt =====
-- A claim takes the first pending job of the queue, and keeps the table sound.
use open_llmops.Prelude.{
  ℕ, String, string_eq, ◌≡◌, refl, true, false, Option, some, none, List, [], ◌∷◌, ◌==◌, nat_eq,
  Memᴰ, Bool-cases, inl, inr, arith, beq_refl, any, All, IsDistinct, All-map,
}
use open_llmops.Imports.Table.{ModelImportJob, is_pending, is_ready, is_finished, update_job}
use open_llmops.Imports.Jobs.{
  created_before, earlier, next_pending, set_claimed, take_job, claim_next_model_import,
}
use open_llmops.Imports.Coordinator.{Task, Coordinator, put_task, added, claim_one}
use open_llmops.Imports.Sound.{Jobs, ids, is_running}
use open_llmops.Imports.Changes.{Follows, same_jobs, update_job-Follows}

-- The first pending job: it is in the table, it is pending, and no pending job comes before it.
abbrev pub IsFirst : Jobs → ModelImportJob → Type 0
IsFirst jobs j =
    Memᴰ j jobs
    × (is_pending j.status ≡ true)
    × All (λ k. is_pending k.status ≡ true → created_before k j ≡ false) jobs

-- What the queue gives: nothing if no job is pending, or the first one.
abbrev pub NextPending : Jobs → Option ModelImportJob → Type 0
NextPending jobs none = All (λ k. is_pending k.status ≡ false) jobs
NextPending jobs (some j) = IsFirst jobs j

created_before_irrefl : (j : ModelImportJob) → created_before j j ≡ false
created_before_irrefl j = ground arith

created_before_asym :
    (a b : ModelImportJob) → created_before a b ≡ true → created_before b a ≡ false
created_before_asym a b h = ground arith

created_before_trans :
    (a b c : ModelImportJob)
    → created_before b a ≡ false
    → created_before c b ≡ false
    → created_before c a ≡ false
created_before_trans a b c h k = ground arith

grown :
    (j : ModelImportJob) (jobs : Jobs)
    → is_pending j.status ≡ true
    → (o : Option ModelImportJob) → NextPending jobs o
    → NextPending (j ∷ jobs) (earlier j o)
grown j jobs p none f =
    (Memᴰ.head refl, p, ((λ q. created_before_irrefl j), All-map (λ k h q. absurd (cc)) jobs f))
grown j jobs p (some k) (m, q, f) = elim (Bool-cases (created_before k j)) [
  | inl sooner ↦ rw sooner (Memᴰ.tail m, q, ((λ q'. created_before_asym k j sooner), f))
  | inr later ↦ rw later (
    Memᴰ.head refl,
    p,
    (
      (λ q'. created_before_irrefl j),
      All-map (λ l h q'. created_before_trans j k l later (h q')) jobs f,
    ),
  )
]

passed :
    (j : ModelImportJob) (jobs : Jobs)
    → is_pending j.status ≡ false
    → (o : Option ModelImportJob) → NextPending jobs o
    → NextPending (j ∷ jobs) o
passed j jobs other none f = (other, f)
passed j jobs other (some k) (m, q, f) = (Memᴰ.tail m, q, ((λ p. absurd (cc)), f))

pub next_pending-NextPending : (jobs : Jobs) → NextPending jobs (next_pending jobs)
unfolding next_pending
next_pending-NextPending [] = tt
next_pending-NextPending (j ∷ jobs) = elim (Bool-cases (is_pending j.status)) [
  | inl p ↦ rw p (grown j jobs p (next_pending jobs) (next_pending-NextPending jobs))
  | inr other ↦ rw other (passed j jobs other (next_pending jobs) (next_pending-NextPending jobs))
]

-- Two rows of a table without equal keys that have one key are one row.
mem-ids : (j : ModelImportJob) (jobs : Jobs) → Memᴰ j jobs → any (λ i. i == j.id) (ids jobs) ≡ true
mem-ids j [] m = elim m [ ]
mem-ids j (k ∷ jobs) (Memᴰ.head e) = rw (e, beq_refl k.id) refl
mem-ids j (k ∷ jobs) (Memᴰ.tail m) = ground (arith, mem-ids j jobs m)

one_row :
    (j k : ModelImportJob) (jobs : Jobs)
    → IsDistinct (ids jobs)
    → Memᴰ j jobs
    → Memᴰ k jobs
    → j.id ≡ k.id
    → j ≡ k
one_row j k [] d m n e = elim m [ ]
one_row j k (l ∷ jobs) d (Memᴰ.head p) (Memᴰ.head q) e = cc
one_row j k (l ∷ jobs) d (Memᴰ.tail m) (Memᴰ.tail n) e = one_row j k jobs d.1 m n e
one_row j k (l ∷ jobs) d (Memᴰ.head p) (Memᴰ.tail n) e =
    absurd (cc (mem-ids k jobs n, rw (← p, e) at d.0))
one_row j k (l ∷ jobs) d (Memᴰ.tail m) (Memᴰ.head q) e =
    absurd (cc (mem-ids j jobs m, rw (← q, ← e) at d.0))

pending-unready : (k : ModelImportJob) → is_pending k.status ≡ true → is_ready k.status ≡ false
pending-unready k h = ground arith

pending-unfinished :
    (k : ModelImportJob) → is_pending k.status ≡ true → is_finished k.status ≡ false
pending-unfinished k h = ground arith

running-put_task :
    (i k : ℕ) (tasks : List Task)
    → (k == i) ≡ false
    → is_running k (put_task i tasks) ≡ true
    → is_running k tasks ≡ true
running-put_task i k [] other h = ground arith
running-put_task i k (t ∷ tasks) other h = elim (Bool-cases (t.job_id == i)) [
  | inl here ↦ ground (arith, running-put_task i k tasks other (rw here at h))
  | inr there ↦ ground (arith, rw there at h, running-put_task i k tasks other)
]

-- The table after a claim, with the tasks that there are then.
pub taken-Follows :
    (now : ℕ) (w : String) (tasks : List Task) (jobs : Jobs) (o : Option ModelImportJob)
    → NextPending jobs o
    → let (found, jobs') = take_job now w o jobs in Follows w tasks (added found tasks) jobs jobs'
taken-Follows now w tasks jobs none f sound = (sound, same_jobs jobs)
taken-Follows now w tasks jobs (some j) (m, p, f) sound =
    update_job-Follows j.id (set_claimed now w) (λ k. refl) w tasks (put_task j.id tasks) jobs
      (λ k other run. running-put_task j.id k tasks other run)
      (λ k n e g. (
        (λ run. (refl, refl)),
        (λ q. g.1 (pending-unready k (rw (← one_row k j jobs sound.0 n m e) at p))),
      ))
      (λ k n e g h.
        absurd (cc (pending-unfinished k (rw (← one_row k j jobs sound.0 n m e) at p), h)))
      sound

pub claim-Follows :
    (now : ℕ) (c : Coordinator)
    → let (o, c') = claim_one now c in
      Follows c.worker_id c.tasks c'.tasks c.store.jobs c'.store.jobs
unfolding claim_next_model_import
claim-Follows now c =
    taken-Follows now c.worker_id c.tasks c.store.jobs _ (next_pending-NextPending c.store.jobs)

-- A claim: nothing changes if no job is pending; else the first pending job is marked and returned.
abbrev pub IsClaim : ℕ → String → Jobs → Option ModelImportJob × Jobs → Type 0
IsClaim now w jobs (none, jobs') = All (λ k. is_pending k.status ≡ false) jobs × (jobs' ≡ jobs)
IsClaim now w jobs (some j, jobs') =
    (k : ModelImportJob) × IsFirst jobs k
    × (j ≡ set_claimed now w k)
    × (jobs' ≡ update_job k.id (set_claimed now w) jobs)

take_job-IsClaim :
    (now : ℕ) (w : String) (jobs : Jobs) (o : Option ModelImportJob)
    → NextPending jobs o
    → IsClaim now w jobs (take_job now w o jobs)
take_job-IsClaim now w jobs none f = (f, refl)
take_job-IsClaim now w jobs (some k) f = (k, f, refl, refl)

-- A claim takes the pending import job that was created first, the least key breaking ties, marks
-- it, and no other unless it has the same key, and returns it; if no job is pending, it takes
-- nothing and changes nothing.
pub claim_next_model_import-IsClaim :
    (now : ℕ) (w : String) (jobs : Jobs) → IsClaim now w jobs (claim_next_model_import now w jobs)
unfolding claim_next_model_import
claim_next_model_import-IsClaim now w jobs =
    take_job-IsClaim now w jobs (next_pending jobs) (next_pending-NextPending jobs)
