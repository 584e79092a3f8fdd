-- ===== src/Leases.antt =====
-- Whole-card GPU leases: backend/app/services/gpu_scheduler.py and the table `gpu_leases` of
-- backend/app/models/entities.py.
-- The table is the list of its rows. A function that raises returns `err`, and then the caller's
-- transaction is rolled back; otherwise it returns the table that it leaves. A lease is told from
-- the others by its `gpu_index`, which the table keeps unique.
pub mod Table
pub mod Normal
pub mod Outcome
pub mod Exclusive
pub mod Acquire
pub mod Reaping
pub mod Stale
mod Tests
use mathlib.Core.Option
use open_llmops.Prelude.{
  ℕ, ◌+◌, String, Bool, true, false, not, ◌&&◌, ◌||◌, Option, some, none, List, [], ◌∷◌, ◌++◌, map,
  ◌==◌, nat_eq, ltb, leb, if◌then◌else◌, ℤ, int_eq, int_leb, is_negative, Result, ok, err, ◌>>=◌,
  length, any, all, select, head?, elem, list_beq, distinct, sort_by,
}
use open_llmops.Workloads.{LeaseOwnerType, type_eq}

pub record LeaseOwner : Type 0 where
  pub type : LeaseOwnerType
  pub id : ℕ
  pub name : String
  pub generation : ℕ

pub record Lease : Type 0 where
  pub gpu_index : ℤ
  pub lease_group_id : ℕ
  pub owner_type : LeaseOwnerType
  pub owner_id : ℕ
  pub owner_name : String
  pub generation : ℕ
  pub acquired_at : ℕ
  pub heartbeat_at : ℕ
  pub expires_at : ℕ

abbrev pub Leases : Type 0
Leases = List Lease

pub record LeaseAcquisition : Type 0 where
  pub acquired : Bool
  pub gpu_ids : List ℤ
  pub lease_group_id : Option ℕ
  pub blocking_owner : Option LeaseOwner
  pub idempotent : Bool

pub data LeaseError : Type 0 where
  no_gpu bad_gpu_ids lease_invariant : LeaseError

-- `GPULease.owner_type == owner.type, GPULease.owner_id == owner.id`
abbrev pub is_owned_by : LeaseOwner → Lease → Bool
is_owned_by owner l = l.owner_type == owner.type && l.owner_id == owner.id

-- The same with `GPULease.generation == owner.generation`.
abbrev pub is_held_by : LeaseOwner → Lease → Bool
is_held_by owner l = is_owned_by owner l && l.generation == owner.generation

abbrev pub gpu_before : Lease → Lease → Bool
gpu_before l m = int_leb l.gpu_index m.gpu_index

abbrev pub check_gpu_ids : List ℤ → Result LeaseError (List ℤ)
check_gpu_ids [] = err no_gpu
check_gpu_ids (g ∷ gs) =
    if is_negative g || not (length (g ∷ gs) == length (distinct (g ∷ gs)))
    then err bad_gpu_ids
    else ok (g ∷ gs)

unfoldable pub normalize_gpu_ids : List ℤ → Result LeaseError (List ℤ)
normalize_gpu_ids gpu_ids = check_gpu_ids (sort_by int_leb gpu_ids)

-- Both timestamps of the leases that pass a test are moved.
abbrev pub renew : (Lease → Bool) → (ttl now : ℕ) → Leases → Leases
renew p ttl now [] = []
renew p ttl now (l ∷ t) =
    (if p l then record l { heartbeat_at = now; expires_at = now + ttl } else l) ∷ renew p ttl now t

abbrev pub owner_of : Lease → LeaseOwner
owner_of l = record {
  type = l.owner_type;
  id = l.owner_id;
  name = l.owner_name;
  generation = l.generation;
}

abbrev pub new_lease : (ttl now group : ℕ) → LeaseOwner → ℤ → Lease
new_lease ttl now group owner g = record {
  gpu_index = g;
  lease_group_id = group;
  owner_type = owner.type;
  owner_id = owner.id;
  owner_name = owner.name;
  generation = owner.generation;
  acquired_at = now;
  heartbeat_at = now;
  expires_at = now + ttl;
}

-- `add_all` and `flush` under the unique constraint on `gpu_index`: all rows or none. (The
-- constraint on owner and `gpu_index` follows from it.)
unfoldable pub insert_all : Leases → Leases → Option Leases
insert_all [] t = some t
insert_all (l ∷ ls) t =
    let rest = insert_all ls (t ++ l ∷ []) in
    if any (λ m. m.gpu_index == l.gpu_index) t then none else rest

-- `GPULease.gpu_index.in_(requested)`, in the order of `gpu_index`.
abbrev pub conflicts : List ℤ → Leases → Leases
conflicts requested t = sort_by gpu_before (select (λ l. elem l.gpu_index requested) t)

abbrev pub refused : List ℤ → Option Lease → LeaseAcquisition
refused requested l = record {
  acquired = false;
  gpu_ids = requested;
  lease_group_id = none;
  blocking_owner = Option.map owner_of l;
  idempotent = false;
}

abbrev pub granted : List ℤ → ℕ → Bool → LeaseAcquisition
granted requested group again = record {
  acquired = true;
  gpu_ids = requested;
  lease_group_id = some group;
  blocking_owner = none;
  idempotent = again;
}

module _ (ttl now : ℕ) (owner : LeaseOwner) where
  -- The owner has leases already; `l ∷ ls` are all of them.
  abbrev pub acquire_again :
      List ℤ → Lease → Leases → Leases → Result LeaseError (LeaseAcquisition × Leases)
  acquire_again requested l ls t =
      if list_beq (map (λ m. m.gpu_index) (l ∷ ls)) requested
        && (all (λ m. m.generation == owner.generation) (l ∷ ls)
            && all (λ m. m.lease_group_id == l.lease_group_id) ls)
      then ok (granted requested l.lease_group_id true, renew (is_owned_by owner) ttl now t)
      else err lease_invariant

  -- After the SAVEPOINT: the rows are there, or an `IntegrityError` took them back.
  abbrev pub inserted :
      (group : ℕ) → List ℤ → Option Leases → Leases → Result LeaseError (LeaseAcquisition × Leases)
  inserted group requested (some t') t = ok (granted requested group false, t')
  inserted group requested none t = ok (refused requested (head? (conflicts requested t)), t)

  -- The owner has none; the list is that of the conflicting leases. `others` is what other
  -- transactions commit to the table between that query and the insertion.
  abbrev pub acquire_new :
      (others : Leases → Leases) (group : ℕ)
      → List ℤ
      → Leases
      → Leases
      → Result LeaseError (LeaseAcquisition × Leases)
  acquire_new others group requested (l ∷ _) t = ok (refused requested (some l), t)
  acquire_new others group requested [] t =
      inserted group requested
        (insert_all (map (new_lease ttl now group owner) requested) (others t)) (others t)

  abbrev pub acquire_owned :
      (others : Leases → Leases) (group : ℕ)
      → List ℤ
      → Leases
      → Leases
      → Result LeaseError (LeaseAcquisition × Leases)
  acquire_owned others group requested (l ∷ ls) t = acquire_again requested l ls t
  acquire_owned others group requested [] t =
      acquire_new others group requested (conflicts requested t) t

  -- `group` is the fresh `uuid4()`.
  unfoldable pub try_acquire_locked :
      (others : Leases → Leases) (group : ℕ)
      → List ℤ
      → Leases
      → Result LeaseError (LeaseAcquisition × Leases)
  unfolding normalize_gpu_ids insert_all
  try_acquire_locked others group gpu_ids t = do
    requested ← normalize_gpu_ids gpu_ids
    acquire_owned others group requested (sort_by gpu_before (select (is_owned_by owner) t)) t

  -- Renews the leases of one generation, and counts them.
  unfoldable pub heartbeat : Leases → ℕ × Leases
  heartbeat t = (length (select (is_held_by owner) t), renew (is_held_by owner) ttl now t)

unfoldable pub release : LeaseOwner → Leases → ℕ × Leases
release owner t = (length (select (is_held_by owner) t), select (λ l. not (is_held_by owner l)) t)

-- A key `(owner_type, owner_id, generation)`.
abbrev pub Key : Type 0
Key = LeaseOwnerType × ℕ × ℕ

abbrev pub key_of : Lease → Key
key_of l = (l.owner_type, l.owner_id, l.generation)

abbrev pub key_beq : Key → Key → Bool
key_beq (t, i, g) (u, j, h) = t == u && (i == j && g == h)

abbrev pub key_in : Key → List Key → Bool
key_in k ks = any (key_beq k) ks

-- `owners[key] = owner`: a key that is there keeps its place.
abbrev pub put_owner : LeaseOwner → List LeaseOwner → List LeaseOwner
put_owner o [] = o ∷ []
put_owner o (p ∷ ps) =
    if key_beq (p.type, p.id, p.generation) (o.type, o.id, o.generation)
    then o ∷ ps
    else p ∷ put_owner o ps

abbrev pub expiry_before : Lease → Lease → Bool
expiry_before l m =
    ltb l.expires_at m.expires_at || (l.expires_at == m.expires_at && gpu_before l m)

abbrev pub delete_lease : Lease → Leases → Leases
delete_lease l t = select (λ m. not (m.gpu_index == l.gpu_index)) t

-- The loop over the expired leases.
unfoldable pub reap_each : List Key → Leases → List LeaseOwner × Leases → List LeaseOwner × Leases
reap_each confirmed [] acc = acc
reap_each confirmed (l ∷ ls) (owners, t) = reap_each confirmed ls (
    if key_in (key_of l) confirmed
    then (put_owner (owner_of l) owners, delete_lease l t)
    else (owners, t))

abbrev pub is_expired : ℕ → Lease → Bool
is_expired now l = leb l.expires_at now

unfoldable pub reap_expired_locked : (now : ℕ) → List Key → Leases → List LeaseOwner × Leases
unfolding reap_each
reap_expired_locked now confirmed t =
    reap_each confirmed (sort_by expiry_before (select (is_expired now) t)) ([], t)
