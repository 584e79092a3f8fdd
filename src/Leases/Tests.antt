-- ===== src/Leases/Tests.antt =====
-- The theorems on leases at concrete inputs: a deployment that asks for the cards 1 and 0 of a table
-- where a training job has card 2.
use mathlib.Core.List.{Perm}
use open_llmops.Prelude.{
  ◌≡◌, refl, true, false, not, ◌&&◌, List, [], ◌∷◌, ◌++◌, map, ◌↔◌, ◌⊎◌, ℤ, pos, ok, All, select,
  int_leb, sort_by,
}
use open_llmops.Workloads.{of_deployment, of_training}
use open_llmops.Leases.{
  Leases, LeaseOwner, LeaseAcquisition, new_lease, granted, try_acquire_locked, normalize_gpu_ids,
  insert_all, is_expired, key_in, key_of, Key, reap_expired_locked,
}
use open_llmops.Leases.Table.{IsExclusive, holds}
use open_llmops.Leases.Normal.{IsRequest, IsAscending, normalize-IsRequest}
use open_llmops.Leases.Exclusive.{try_acquire-IsExclusive}
use open_llmops.Leases.Acquire.{alone, try_acquire-whole, try_acquire-free}
use open_llmops.Leases.Reaping.{reap-select}

abbrev service : LeaseOwner
service = record { type = of_deployment; id = 1; name = "chat"; generation = 3 }

abbrev trainer : LeaseOwner
trainer = record { type = of_training; id = 9; name = "sft"; generation = 1 }

abbrev asked : List ℤ
asked = pos 1 ∷ pos 0 ∷ []

abbrev sorted : List ℤ
sorted = pos 0 ∷ pos 1 ∷ []

abbrev before : Leases
before = new_lease 60 5 8 trainer (pos 2) ∷ []

abbrev after : Leases
after = before ++ map (new_lease 60 10 7 service) sorted

abbrev grant : LeaseAcquisition
grant = granted sorted 7 false

asked-IsRequest : IsRequest asked
asked-IsRequest = record { some_gpu = cc; non_negative = refl; no_repeat = (refl, (refl, tt)) }

granted_now : try_acquire_locked 60 10 service alone 7 asked before ≡ ok (grant, after)
unfolding try_acquire_locked normalize_gpu_ids insert_all
granted_now = refl

normalize-IsRequest_example :
    (normalize_gpu_ids asked ≡ ok sorted)
    ↔ (IsRequest asked × (sorted ≡ sort_by int_leb asked) × IsAscending sorted × Perm sorted asked)
normalize-IsRequest_example = normalize-IsRequest asked sorted

try_acquire-IsExclusive_example : IsExclusive after
try_acquire-IsExclusive_example =
    try_acquire-IsExclusive 60 10 service alone 7 asked before grant after (λ u x. x) (refl, tt)
      granted_now

try_acquire-whole_example :
    (grant.acquired ≡ true) × All (λ g. holds after service g ≡ true) asked
    ⊎ (grant.acquired ≡ false) × ((after ≡ before) ⊎ (after ≡ alone before))
try_acquire-whole_example =
    try_acquire-whole 60 10 service alone 7 asked before grant after granted_now

try_acquire-free_example : try_acquire_locked 60 10 service alone 7 asked before ≡ ok (grant, after)
try_acquire-free_example =
    try_acquire-free 60 10 service 7 asked before asked-IsRequest (refl, (refl, tt)) refl

abbrev trainer_key : List Key
trainer_key = (of_training, 9, 1) ∷ []

reap-select_example :
    (reap_expired_locked 65 trainer_key after).1
    ≡ select (λ l. not (is_expired 65 l && key_in (key_of l) trainer_key)) after
reap-select_example = reap-select 65 trainer_key after (refl, (refl, (refl, tt)))
