-- ===== src/Docker/Described.antt =====
-- What `to_info` tells is what the container is, at the time of its last inspection.
use open_llmops.Prelude.{
  ℕ, ◌≡◌, refl, ap, subst, String, Option, some, none, Bool-cases, inl, inr, ok, ℤ, find, string_eq,
}
use open_llmops.Node.Inspect.{WorkloadKind, WorkloadInfo}
use open_llmops.Docker.Labels.{
  Texts, gpu_ids_from_labels, generation_from_labels, service_type_label,
}
use open_llmops.Docker.Info.{Container, describe, is_service_type, info_of, exit_code_of}
use open_llmops.Docker.Engine.{Engine, lifted}
use open_llmops.Docker.Allocate.{informed, to_info}
use open_llmops.Docker.Moves.{IsDocker}
use open_llmops.Docker.Returns.{after-eq-ok, IsSeen, inspect-IsSeen}

-- The information that matters is the container's.
pub record IsOf (t : Texts) (c : Container) (info : WorkloadInfo) : Type 0 where
  pub name : info.name ≡ c.name
  pub status : info.status ≡ c.status
  pub gpu_ids : info.gpu_ids ≡ gpu_ids_from_labels t c.labels
  pub generation : info.generation ≡ generation_from_labels t c.labels
  pub exit_code : info.exit_code ≡ exit_code_of c.state

abbrev IsOfSome : Texts → Container → Option WorkloadInfo → Type 0
IsOfSome t c none = Unit
IsOfSome t c (some info) = IsOf t c info

describe-IsOf :
    (t : Texts) (c : Container) (id : Option ℕ) (k : Option WorkloadKind) (port : Option (Option ℤ))
    (info : WorkloadInfo)
    → describe t c id k port ≡ some info
    → IsOf t c info
describe-IsOf t c none k port info h = absurd (cc)
describe-IsOf t c (some id) none port info h = absurd (cc)
describe-IsOf t c (some id) (some k) none info h = absurd (cc)
describe-IsOf t c (some id) (some k) (some port) info h =
    elim (Bool-cases (is_service_type (find service_type_label c.labels))) [
      | inr bad ↦ absurd (cc (rw bad at h))
      | inl fine ↦
          subst (IsOfSome t c) (rw fine at h) record {
            name = refl;
            status = refl;
            gpu_ids = refl;
            generation = refl;
            exit_code = refl;
          }
    ]

pub info_of-IsOf :
    (t : Texts) (c : Container) (info : WorkloadInfo) → info_of t c ≡ some info → IsOf t c info
unfolding info_of
info_of-IsOf t c info h = describe-IsOf t c _ _ _ info h

module _ {S : Type 0} (t : Texts) (e : Engine S) (view : S → String → Option Container)
    (d : IsDocker view e) where
  informed-eq-ok :
      (o : Option WorkloadInfo) (info : WorkloadInfo) (s s' : S)
      → informed t e o s ≡ (ok info, s')
      → (o ≡ some info) × (s ≡ s')
  informed-eq-ok none info s s' h = cc
  informed-eq-ok (some i) info s s' h = (ap some (cc (ap (λ p. p.0) h)), ap (λ p. p.1) h)

  pub to_info-IsOf :
      (n : String) (s : S) (info : WorkloadInfo) (s' : S)
      → to_info t e n s ≡ (ok info, s')
      → (c : Container) × IsSeen e view d s n c s' × IsOf t c info
  unfolding to_info
  to_info-IsOf n s info s' h =
      let (c, s1, q, rest) = after-eq-ok (lifted (e.inspect n s)) _ info s' h in
      let (o, same) = informed-eq-ok (info_of t c) info s1 s' rest in
      (
        c,
        subst (IsSeen e view d s n c) same (inspect-IsSeen e view d n s c s1 q),
        info_of-IsOf t c info o,
      )
