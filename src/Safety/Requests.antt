-- ===== src/Safety/Requests.antt =====
-- The requests of the management API.
use mathlib.Core.Bool.{false≢true}
use open_llmops.Prelude.{
  ℕ, ◌≡◌, refl, sym, ◌∙◌, ap, subst, Bool, true, false, not, Option, some, none, List, ◌==◌, nat_eq,
  arith, if◌then◌else◌, Result, ok, >>=-eq-ok, raise_if, length,
}
use open_llmops.Workloads.{
  Row, deployment, training, evaluation, Deployment, of_deployment, type_eq, DeploymentState,
}
use open_llmops.Leases.{LeaseOwner}
use open_llmops.Reconciler.Database.{Database, get_row, put_row, is_active, is_active_deployment}
use open_llmops.Routes.Common.{HttpError, StateActionResponse, any_owner}
use open_llmops.Routes.Deployments.{
  as_deployment, find_deployment, started, stopped, still_there, committed, enqueue, is_enqueued,
  want_running, want_stop, start_deployment, stop_deployment, is_editable, bumped, DeploymentUpdate,
  edited, update_deployment, final_gpu_ids, final_tp, final_name, validate_gpu_ids,
}
use open_llmops.Safety.Backing.{
  IsBacked, IsSafe, IsSameClaim, IsCovered-claim, IsSafe-put, get_row-All,
}

-- A row is stored that claims what it did, and is active only if it was.
pub IsSafe-put_claim :
    (owner : LeaseOwner) (r r' : Row) (db : Database)
    → get_row owner db.rows ≡ some r
    → IsSameClaim r r'
    → (is_active r' ≡ true → is_active r ≡ true)
    → IsSafe db
    → IsSafe (record db { rows = put_row r' db.rows })
IsSafe-put_claim owner r r' db e claim was safe =
    IsSafe-put r' db.rows db.leases db.leases safe safe.exclusive (λ _ _ c. c)
      (λ on.
        IsCovered-claim db.leases r r' claim
          ((get_row-All (IsBacked db.leases) owner db.rows r e safe.backed).0 (was on)))

-- A row is stored that is not active.
pub IsSafe-put_idle :
    (r' : Row) (db : Database)
    → is_active r' ≡ false
    → IsSafe db
    → IsSafe (record db { rows = put_row r' db.rows })
IsSafe-put_idle r' db off safe =
    IsSafe-put r' db.rows db.leases db.leases safe safe.exclusive (λ _ _ c. c)
      (λ on. absurd (false≢true (sym off ∙ on)))

as_deployment-ok :
    (o : Option Row) (d : Deployment) → as_deployment o ≡ ok d → o ≡ some (deployment d)
as_deployment-ok none d h = absurd (cc)
as_deployment-ok (some (deployment e)) d h = ap (λ x. some (deployment x)) (cc)
as_deployment-ok (some (training j)) d h = absurd (cc)
as_deployment-ok (some (evaluation r)) d h = absurd (cc)

pub find_deployment-ok :
    (id : ℕ) (rows : List Row) (d : Deployment)
    → find_deployment id rows ≡ ok d
    → get_row (any_owner of_deployment id) rows ≡ some (deployment d)
unfolding find_deployment
find_deployment-ok id rows d h = as_deployment-ok _ d h

still_there-ok : (o : Option Row) (d : Deployment) → still_there o ≡ ok d → o ≡ some (deployment d)
still_there-ok none d h = absurd (cc)
still_there-ok (some (deployment e)) d h = ap (λ x. some (deployment x)) (cc)
still_there-ok (some (training j)) d h = absurd (cc)
still_there-ok (some (evaluation r)) d h = absurd (cc)

pub committed-ok :
    (id : ℕ) (rows : List Row) (d : Deployment)
    → committed id rows ≡ ok d
    → get_row (any_owner of_deployment id) rows ≡ some (deployment d)
unfolding committed
committed-ok id rows d h = still_there-ok _ d h

-- Between the reading of a row and the commit the row neither becomes active nor ceases to be.
abbrev pub IsStill : LeaseOwner → Database → Database → Type 0
IsStill owner before db =
    (r s : Row)
    → get_row owner before.rows ≡ some r
    → get_row owner db.rows ≡ some s
    → is_active r ≡ is_active s

either-claim :
    (b : Bool) (r : Row) (d e : Deployment)
    → IsSameClaim r (deployment d)
    → IsSameClaim r (deployment e)
    → IsSameClaim r (deployment (if b then d else e))
either-claim true r d e h k = h
either-claim false r d e h k = k

-- A row that is started claims what it did, and it is not active unless it was, whatever was read.
started-active :
    (b : Bool) (now : ℕ) (read d : Deployment)
    → is_active (deployment (if b then enqueue now read d else d)) ≡ true
    → is_active (deployment d) ≡ true
unfolding is_active
started-active true now read d h = absurd (false≢true h)
started-active false now read d h = h

abbrev wanted : (read d : Deployment) → Deployment
wanted read d = record d { desired_state = want_running read.desired_state d.desired_state }

wanted-active :
    (read d : Deployment)
    → is_active (deployment (wanted read d)) ≡ true
    → is_active (deployment d) ≡ true
unfolding is_active
wanted-active read d h = h

pub snd_ok :
    {x : StateActionResponse} {d : Database} {y : StateActionResponse} {d' : Database}
    → ◌≡◌ {A = Result HttpError (StateActionResponse × Database)} (ok (x, d)) (ok (y, d'))
    → d ≡ d'
snd_ok h = cc

pub start_deployment-IsSafe :
    (now id : ℕ) (before db : Database) (a : StateActionResponse) (db' : Database)
    → start_deployment now id before db ≡ ok (a, db')
    → IsSafe db
    → IsSafe db'
unfolding start_deployment
start_deployment-IsSafe now id before db a db' h safe =
    let (read, _, h1) = >>=-eq-ok (find_deployment id before.rows) _ h in
    let (d, found, h2) = >>=-eq-ok (committed id db.rows) _ h1 in
    subst IsSafe (snd_ok h2) (
      IsSafe-put_claim (any_owner of_deployment id) (deployment d) (deployment (started now read d))
        db (committed-ok id db.rows d found)
        (either-claim (is_enqueued read.actual_state) (deployment d) _ _
          (record { owner = refl; gpu_ids = refl }) (record { owner = refl; gpu_ids = refl }))
        (λ on.
          wanted-active read d
            (started-active (is_enqueued read.actual_state) now read (wanted read d) on))
        safe)

stopped-claim :
    (s : DeploymentState) (read d : Deployment)
    → IsSameClaim (deployment d) (deployment (bumped read (stopped s read (want_stop read d))))
stopped-claim DeploymentState.created read d = record { owner = refl; gpu_ids = refl }
stopped-claim DeploymentState.queued read d = record { owner = refl; gpu_ids = refl }
stopped-claim DeploymentState.failed read d = record { owner = refl; gpu_ids = refl }
stopped-claim DeploymentState.stopped read d = record { owner = refl; gpu_ids = refl }
stopped-claim DeploymentState.stopping read d = record { owner = refl; gpu_ids = refl }
stopped-claim DeploymentState.starting read d = record { owner = refl; gpu_ids = refl }
stopped-claim DeploymentState.running read d = record { owner = refl; gpu_ids = refl }

stopped-active :
    (s : DeploymentState) (read d : Deployment)
    → (is_active_deployment s ≡ true → is_active (deployment d) ≡ true)
    → is_active (deployment (bumped read (stopped s read (want_stop read d)))) ≡ true
    → is_active (deployment d) ≡ true
unfolding is_active
stopped-active DeploymentState.created read d f h = absurd (false≢true h)
stopped-active DeploymentState.queued read d f h = absurd (false≢true h)
stopped-active DeploymentState.failed read d f h = absurd (false≢true h)
stopped-active DeploymentState.stopped read d f h = h
stopped-active DeploymentState.stopping read d f h = h
stopped-active DeploymentState.starting read d f h = f refl
stopped-active DeploymentState.running read d f h = f refl

-- A row that was read as active is active.
still-active :
    (id : ℕ) (before db : Database) (read d : Deployment)
    → IsStill (any_owner of_deployment id) before db
    → find_deployment id before.rows ≡ ok read
    → committed id db.rows ≡ ok d
    → is_active_deployment read.actual_state ≡ is_active_deployment d.actual_state
unfolding is_active
still-active id before db read d still h k =
    still (deployment read) (deployment d) (find_deployment-ok id before.rows read h)
      (committed-ok id db.rows d k)

pub stop_deployment-IsSafe :
    (id : ℕ) (before db : Database) (a : StateActionResponse) (db' : Database)
    → IsStill (any_owner of_deployment id) before db
    → stop_deployment id before db ≡ ok (a, db')
    → IsSafe db
    → IsSafe db'
unfolding stop_deployment
stop_deployment-IsSafe id before db a db' still h safe =
    let (read, seen, h1) = >>=-eq-ok (find_deployment id before.rows) _ h in
    let (d, found, h2) = >>=-eq-ok (committed id db.rows) _ h1 in
    subst IsSafe (snd_ok h2) (
      IsSafe-put_claim (any_owner of_deployment id) (deployment d) _ db
        (committed-ok id db.rows d found) (stopped-claim read.actual_state read d)
        (λ on.
          stopped-active read.actual_state read d
            (λ was. on_now d (sym (still-active id before db read d still seen found) ∙ was)) on)
        safe)
  where
    on_now :
        (d : Deployment)
        → is_active_deployment d.actual_state ≡ true
        → is_active (deployment d) ≡ true
    on_now d h = unfold is_active in h

pub raise_if-ok : {E : Type 0} (b : Bool) (e : E) (u : Unit {0}) → raise_if b e ≡ ok u → b ≡ false
raise_if-ok true e u h = absurd (cc)
raise_if-ok false e u h = refl

editable-idle : (s : DeploymentState) → not (is_editable s) ≡ false → is_active_deployment s ≡ false
editable-idle s h = ground arith

-- An edited deployment is not active, so it may ask for other cards.
pub update_deployment-IsSafe :
    (gpu_count id : ℕ) (payload : DeploymentUpdate) (before db db' : Database)
    → IsStill (any_owner of_deployment id) before db
    → update_deployment gpu_count id payload before db ≡ ok db'
    → IsSafe db
    → IsSafe db'
unfolding update_deployment is_active
update_deployment-IsSafe gpu_count id payload before db db' still h safe =
    let (read, seen, h1) = >>=-eq-ok (find_deployment id before.rows) _ h in
    let (u, editable, h2) = >>=-eq-ok (raise_if (not (is_editable read.actual_state)) _) _ h1 in
    let (gs, _, h3) = >>=-eq-ok (final_gpu_ids payload.gpu_ids read.runtime.gpu_ids) _ h2 in
    let (v, _, h4) = >>=-eq-ok (validate_gpu_ids gpu_count gs) _ h3 in
    let (tp, _, h5) =
      >>=-eq-ok (final_tp payload.tensor_parallel_size read.tensor_parallel_size) _ h4 in
    let (w, _, h6) = >>=-eq-ok (raise_if (not (length gs == tp)) _) _ h5 in
    let (d, found, h7) = >>=-eq-ok (committed id db.rows) _ h6 in
    let (name, _, h8) = >>=-eq-ok (final_name payload.name read db.rows) _ h7 in
    subst IsSafe (ok_eq h8) (
      IsSafe-put_idle (deployment (edited payload gs tp name read d)) db
        (sym (still-active id before db read d still seen found)
          ∙ editable-idle read.actual_state (raise_if-ok _ _ u editable))
        safe)
  where
    ok_eq : {d d' : Database} → ◌≡◌ {A = Result HttpError Database} (ok d) (ok d') → d ≡ d'
    ok_eq h = cc
