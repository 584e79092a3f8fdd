-- ===== src/Reconciler/Reap.antt =====
-- Expired leases of workloads that have ended: `_reap_terminal_expired_leases`.
use open_llmops.Prelude.{ℕ, Bool, true, Option, some, none, List, map, select, length}
use open_llmops.Workloads.{Row}
use open_llmops.Leases.{LeaseOwner, Key, key_of, is_expired, reap_expired_locked}
use open_llmops.Reconciler.Database.{Database, get_row, is_terminal}

-- The row is missing, or in a terminal state.
abbrev pub has_ended : Option Row → Bool
has_ended none = true
has_ended (some r) = is_terminal r

abbrev pub key_owner : Key → LeaseOwner
key_owner (t, i, g) = record { type = t; id = i; name = "expired"; generation = g }

abbrev pub is_confirmed : List Row → Key → Bool
is_confirmed rows k = has_ended (get_row (key_owner k) rows)

-- The keys of the expired leases whose workload has ended.
unfoldable pub confirmed_keys : ℕ → Database → List Key
unfolding get_row is_terminal
confirmed_keys now db =
    select (is_confirmed db.rows) (map key_of (select (is_expired now) db.leases))

unfoldable pub reap_terminal_expired_leases : ℕ → Database → ℕ × Database
unfolding confirmed_keys reap_expired_locked
reap_terminal_expired_leases now db =
    let (owners, t) = reap_expired_locked now (confirmed_keys now db) db.leases in
    (length owners, record db { leases = t })
