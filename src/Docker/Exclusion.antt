-- ===== src/Docker/Exclusion.antt =====
-- The runner and the engine together: no card is used by two containers.
use open_llmops.Prelude.{
  ℕ, ◌≤◌, ◌≡◌, String, Bool, true, ◌&&◌, Option, some, ℤ, elem, int_eq, arith,
}
use open_llmops.Leases.{LeaseOwner}
use open_llmops.Docker.Labels.{Texts, is_active_status, is_managed, gpu_ids_from_labels}
use open_llmops.Docker.Info.{Container}
use open_llmops.Docker.Engine.{Engine}
use open_llmops.Docker.Allocate.{Settings, Launch, launch}
use open_llmops.Docker.Operate.{
  get_workload, prepare_contract_start, stop_contract_workload, cleanup_contract_workload,
  quiesce_failed_inference, start, stop, delete,
}
use open_llmops.Docker.Moves.{IsQuiet, IsDocker, IsExclusive, IsQuiet-exclusive}
use open_llmops.Docker.Quiet.{
  get_workload-IsQuiet, prepare_contract_start-IsQuiet, stop_contract_workload-IsQuiet,
  cleanup_contract_workload-IsQuiet, quiesce_failed_inference-IsQuiet, stop-IsQuiet, delete-IsQuiet,
}
use open_llmops.Docker.Readable.{IsTexts, gpu_ids_from_labels-labels_of}
use open_llmops.Docker.Creating.{launch-IsExclusive}
use open_llmops.Docker.Starting.{start-IsExclusive}

module _ {S : Type 0} (t : Texts) (e : Engine S) (view : S → String → Option Container)
    (settings : Settings) where
  -- What happens next: containers end by themselves, or an operation of the runner is called, however
  -- it ends.
  pub data Step (s : S) : S → Type 0 where
    alone : (s' : S) → IsQuiet view s s' → Step s s'
    launches : (l : Launch) → 1 ≤ l.generation → Step s (launch t e settings l s).1
    starts : (name : String) → Step s (start t e settings name s).1
    stops : (name : String) (timeout : ℕ) → Step s (stop t e name timeout s).1
    deletes : (name : String) (force : Bool) → Step s (delete t e name force s).1
    gets : (name : String) → Step s (get_workload t e name s).1
    prepares : (owner : LeaseOwner) → Step s (prepare_contract_start t e owner s).1
    halts :
        (owner : LeaseOwner) (timeout : ℕ) → Step s (stop_contract_workload t e owner timeout s).1
    cleans : (owner : LeaseOwner) → Step s (cleanup_contract_workload t e owner s).1
    quiesces :
        (id generation timeout : ℕ)
        → Step s (quiesce_failed_inference t e id generation timeout s).1

  pub data Reach (start : S) : S → Type 0 where
    here : Reach start start
    next : {s s' : S} → Reach start s → Step s s' → Reach start s'

  module _ (laws : IsTexts t) (d : IsDocker view e) where
    Step-IsExclusive : (s s' : S) → Step s s' → IsExclusive view t s → IsExclusive view t s'
    Step-IsExclusive s s' (alone u q) x = IsQuiet-exclusive view t s u q x
    Step-IsExclusive s s' (launches l positive) x =
        launch-IsExclusive t e view d settings l s
          (gpu_ids_from_labels-labels_of t l laws positive).0 x
    Step-IsExclusive s s' (starts name) x = start-IsExclusive t e view d settings name s x
    Step-IsExclusive s s' (stops name timeout) x =
        IsQuiet-exclusive view t s _ (stop-IsQuiet t e view d name timeout s) x
    Step-IsExclusive s s' (deletes name force) x =
        IsQuiet-exclusive view t s _ (delete-IsQuiet t e view d name force s) x
    Step-IsExclusive s s' (gets name) x =
        IsQuiet-exclusive view t s _ (get_workload-IsQuiet t e view d name s) x
    Step-IsExclusive s s' (prepares o) x =
        IsQuiet-exclusive view t s _ (prepare_contract_start-IsQuiet t e view d o s) x
    Step-IsExclusive s s' (halts o timeout) x =
        IsQuiet-exclusive view t s _ (stop_contract_workload-IsQuiet t e view d o timeout s) x
    Step-IsExclusive s s' (cleans o) x =
        IsQuiet-exclusive view t s _ (cleanup_contract_workload-IsQuiet t e view d o s) x
    Step-IsExclusive s s' (quiesces id g timeout) x =
        IsQuiet-exclusive view t s _ (quiesce_failed_inference-IsQuiet t e view d id g timeout s) x

    Reach-IsExclusive : (s s' : S) → Reach s s' → IsExclusive view t s → IsExclusive view t s'
    Reach-IsExclusive s s' here x = x
    Reach-IsExclusive s s' (next {s = u} r st) x =
        Step-IsExclusive u s' st (Reach-IsExclusive s u r x)

  -- Let the engine behave as documented, and let no card be used twice at first. Whatever
  -- operations of the runner are called then, in whatever order and with whatever outcome, and
  -- however containers end by themselves in between: two active containers of the runner that
  -- have a common card are one container. A container is launched with a generation of at least
  -- 1.
  pub Reach-one_user :
      IsTexts t
      → IsDocker view e
      → (s0 s : S) (n m : String) (b c : Container) (g : ℤ) → IsExclusive view t s0
      → Reach s0 s
      → view s n ≡ some b
      → view s m ≡ some c
      → (is_active_status b.status && is_managed b.labels) ≡ true
      → (is_active_status c.status && is_managed c.labels) ≡ true
      → elem g (gpu_ids_from_labels t b.labels) ≡ true
      → elem g (gpu_ids_from_labels t c.labels) ≡ true
      → n ≡ m
  Reach-one_user laws d s0 s n m b c g x reach vb vc ub uc gb gc =
      Reach-IsExclusive laws d s0 s reach x n m g
        (b, vb, joined (is_active_status b.status) (is_managed b.labels) _ ub gb)
        (c, vc, joined (is_active_status c.status) (is_managed c.labels) _ uc gc)
    where
      joined : (a b r : Bool) → (a && b) ≡ true → r ≡ true → (a && (b && r)) ≡ true
      joined a b r h k = ground arith
