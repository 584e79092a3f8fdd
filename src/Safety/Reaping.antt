-- ===== src/Safety/Reaping.antt =====
-- The deletion of expired leases.
use mathlib.Core.Bool.{false≢true}
use open_llmops.Prelude.{
  ℕ, ◌≡◌, sym, ◌∙◌, ap, subst, Bool, true, false, not, ◌&&◌, List, [], ◌∷◌, ◌==◌, nat_eq, map,
  int_eq, Bool-cases, inl, inr, arith, All-map, eq_of_beq, beq_refl, select, any, any-select,
  any_mono, Memᴰ, All-of-mem, All-mem,
}
use open_llmops.Workloads.{
  Row, deployment, training, evaluation, table, common, type_eq, DeploymentState, JobState,
}
use open_llmops.Leases.{Lease, is_held_by, is_expired, key_in, key_of, key_beq, Key}
use open_llmops.Leases.Table.{IsExclusive-select, holds-select}
use open_llmops.Leases.Reaping.{reap-select}
use open_llmops.Reconciler.Database.{
  Database, is_active, is_terminal, is_row_of, is_active_deployment, is_terminal_deployment,
  is_active_job, is_terminal_job,
}
use open_llmops.Reconciler.Reap.{
  key_owner, is_confirmed, has_ended, confirmed_keys, reap_terminal_expired_leases,
}
use open_llmops.Safety.Backing.{row_owner, IsCovered, IsBacked, IsSafe, get_row-mem}

key_match : (k c : Key) → key_beq k c ≡ true → c ≡ k
key_match k c h = λ i. (sym types i, sym ids i, sym generations i)
  where
    first : (a b c : Bool) → (a && (b && c)) ≡ true → a ≡ true
    first a b c h = ground arith

    second : (a b c : Bool) → (a && (b && c)) ≡ true → b ≡ true
    second a b c h = ground arith

    third : (a b c : Bool) → (a && (b && c)) ≡ true → c ≡ true
    third a b c h = ground arith

    types : k.0 ≡ c.0
    types = eq_of_beq {a = k.0} {b = c.0} (first _ (k.1 == c.1) (k.2 == c.2) h)

    ids : k.1 ≡ c.1
    ids = eq_of_beq {a = k.1} {b = c.1} (second (k.0 == c.0) _ (k.2 == c.2) h)

    generations : k.2 ≡ c.2
    generations = eq_of_beq {a = k.2} {b = c.2} (third (k.0 == c.0) (k.1 == c.1) _ h)

any-const : {A : Type 0} (b : Bool) (xs : List A) → any (λ x. b) xs ≡ true → b ≡ true
any-const b [] h = absurd (cc)
any-const b (x ∷ xs) h = ground (arith, any-const b xs)

-- A key among the confirmed ones is confirmed.
key_in-confirmed :
    (rows : List Row) (k : Key) (ks : List Key)
    → key_in k (select (is_confirmed rows) ks) ≡ true
    → is_confirmed rows k ≡ true
key_in-confirmed rows k ks h =
    any-const (is_confirmed rows k) ks
      (any_mono _ _ here ks (sym (any-select (is_confirmed rows) (key_beq k) ks) ∙ h))
  where
    here : (c : Key) → (is_confirmed rows c && key_beq k c) ≡ true → is_confirmed rows k ≡ true
    here c h =
        subst (λ x. is_confirmed rows x ≡ true) (key_match k c (right (is_confirmed rows c) _ h))
          (left _ (key_beq k c) h)
      where
        left : (a b : Bool) → (a && b) ≡ true → a ≡ true
        left a b h = ground arith

        right : (a b : Bool) → (a && b) ≡ true → b ≡ true
        right a b h = ground arith

active_deployment :
    (s : DeploymentState) → is_active_deployment s ≡ true → is_terminal_deployment s ≡ false
active_deployment s h = ground arith

active_job : (s : JobState) → is_active_job s ≡ true → is_terminal_job s ≡ false
active_job s h = ground arith

pub active-not_terminal : (r : Row) → is_active r ≡ true → is_terminal r ≡ false
unfolding is_active is_terminal
active-not_terminal (deployment d) h = active_deployment d.actual_state h
active-not_terminal (training j) h = active_job j.job.actual_state h
active-not_terminal (evaluation r) h = active_job r.job.actual_state h

-- A held lease names the row of its owner.
held-is_row_of :
    (r : Row) (l : Lease)
    → is_held_by (row_owner r) l ≡ true
    → is_row_of (key_owner (key_of l)) r ≡ true
held-is_row_of r l h = rw (
  eq_of_beq {a = l.owner_type} {b = table r} (first _ (l.owner_id == (common r).id) _ h),
  eq_of_beq {a = l.owner_id} {b = (common r).id} (second (l.owner_type == table r) _ _ h),
  beq_refl (table r),
  beq_refl (common r).id,
)
  where
    first : (a b c : Bool) → ((a && b) && c) ≡ true → a ≡ true
    first a b c h = ground arith

    second : (a b c : Bool) → ((a && b) && c) ≡ true → b ≡ true
    second a b c h = ground arith

-- The reaper leaves the leases of active workloads alone, however long ago they expired.
reap-IsCovered :
    (now : ℕ) (db : Database) (r : Row)
    → IsSafe db
    → Memᴰ r db.rows
    → is_active r ≡ true
    → IsCovered db.leases r
    → IsCovered
        (select
          (λ l. not (is_expired now l && key_in (key_of l) (confirmed_keys now db)))
          db.leases)
        r
unfolding confirmed_keys
reap-IsCovered now db r safe m on c =
    All-map (λ g h. holds-select _ (row_owner r) g db.leases spared ∙ h) (common r).gpu_ids c
  where
    unconfirmed :
        (l : Lease)
        → is_held_by (row_owner r) l ≡ true
        → key_in
            (key_of l)
            (select (is_confirmed db.rows) (map key_of (select (is_expired now) db.leases)))
          ≡ false
    unconfirmed l h =
        elim (Bool-cases (
          key_in (key_of l)
            (select (is_confirmed db.rows) (map key_of (select (is_expired now) db.leases))))) [
              | inr out ↦ out
              | inl listed ↦
                  let ended = key_in-confirmed db.rows (key_of l) _ listed in
                  let found =
                    get_row-mem (key_owner (key_of l)) db.rows r safe.keyed m
                      (held-is_row_of r l h) in
                  absurd
                    (false≢true (sym (active-not_terminal r on) ∙ sym (ap has_ended found) ∙ ended))
            ]

    spared :
        (l : Lease)
        → is_held_by (row_owner r) l ≡ true
        → not (
            is_expired now l
            && key_in
                (key_of l)
                (select (is_confirmed db.rows) (map key_of (select (is_expired now) db.leases))))
          ≡ true
    spared l h = rw (unconfirmed l h) (and_false (is_expired now l))
      where
        and_false : (b : Bool) → not (b && false) ≡ true
        and_false b = ground arith

-- Deleting the expired leases of workloads that have ended leaves a safe database safe.
pub reap-IsSafe :
    (now : ℕ) (db : Database) → IsSafe db → IsSafe (reap_terminal_expired_leases now db).1
unfolding reap_terminal_expired_leases
reap-IsSafe now db safe =
    subst (λ t. IsSafe (record { rows = db.rows; leases = t }))
      (sym (reap-select now (confirmed_keys now db) db.leases safe.exclusive))
      (record {
        exclusive = IsExclusive-select _ db.leases safe.exclusive;
        keyed = safe.keyed;
        backed = All-of-mem _ db.rows λ r m on.
            reap-IsCovered now db r safe m on
              (All-mem (IsBacked db.leases) db.rows r safe.backed m on);
      })
