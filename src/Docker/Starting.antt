-- ===== src/Docker/Starting.antt =====
-- `start`: a container that is there is made active again.
use open_llmops.Prelude.{
  ◌≡◌, ◌⊎◌, inl, inr, refl, sym, ◌∙◌, ap, subst, String, true, Option, some, [], ◌∷◌, Result, ok,
  err, ℤ, elem, int_eq, string_eq, ◌==◌, Bool-cases, if◌then◌else◌,
}
use open_llmops.Node.Inspect.{WorkloadInfo}
use open_llmops.Docker.Labels.{Texts, is_managed, gpu_ids_from_labels}
use open_llmops.Docker.Info.{Container}
use open_llmops.Docker.Engine.{
  workload_conflict, Engine, Call, after, return, raise, lifted, DockerError,
}
use open_llmops.Docker.Allocate.{Settings, found, managed_container, to_info, assert_gpus_available}
use open_llmops.Docker.Operate.{start_stopped, start}
use open_llmops.Docker.Moves.{IsQuiet, IsDocker, Uses, IsExclusive, IsQuiet-exclusive}
use open_llmops.Docker.Returns.{inspect-IsSeen}
use open_llmops.Docker.Quiet.{managed_container-IsQuiet, to_info-IsQuiet}
use open_llmops.Docker.Checks.{assert_gpus_available-IsQuiet}
use open_llmops.Docker.Described.{IsOf, to_info-IsOf}
use open_llmops.Docker.Grants.{IsFree, assert_gpus_available-IsFree}
use open_llmops.Docker.Creating.{IsExclusive-one, after-exclusive, last}

module _ {S : Type 0} (t : Texts) (e : Engine S) (view : S → String → Option Container)
    (d : IsDocker view e) where
  lifted-state : {A : Type 0} (q : Result DockerError A × S) → (lifted q).1 ≡ q.1
  lifted-state (ok a, s) = refl
  lifted-state (err x, s) = refl

  -- The engine is asked to start a container that has the cards that were checked.
  started :
      (c : Container) (name : String) (s2 s3 : S)
      → view s2 name ≡ some c
      → IsQuiet view s2 s3
      → IsFree t e view d s3 (gpu_ids_from_labels t c.labels) (some name)
      → IsExclusive view t s3
      → IsExclusive view t (lifted (e.start name s3)).1
  started c name s2 s3 seen quiet free x =
      subst (IsExclusive view t) (sym (lifted-state (e.start name s3))) (
        IsExclusive-one t e view d s3 (e.start name s3).1 name (gpu_ids_from_labels t c.labels)
          (d.start-others name s3) mine (λ n g k u. cc (free n g k u)) x)
    where
      unique : (z : Container) → view s2 name ≡ some z → z ≡ c
      unique z w = cc (w, seen)

      mine :
          (g : ℤ)
          → Uses view t (e.start name s3).1 name g
          → (elem g (gpu_ids_from_labels t c.labels) ≡ true) ⊎ Uses view t s3 name g
      mine g (b, v, u) =
          let (old, was, same) = d.start-same name s3 b v in
          let k = quiet name old was in
          inl (
            subst (λ l. elem g (gpu_ids_from_labels t l) ≡ true)
              (sym same ∙ (sym k.same_labels ∙ ap (λ z. z.labels) (unique k.old k.was)))
              (last _ _ _ u))

  start_stopped-IsExclusive :
      (settings : Settings) (name : String) (c : Container) (info : WorkloadInfo) (s2 : S)
      → view s2 name ≡ some c
      → c.name ≡ name
      → IsOf t c info
      → IsExclusive view t s2
      → IsExclusive view t (start_stopped t e settings name info s2).1
  start_stopped-IsExclusive settings name c info s2 seen called of_c x2 =
      after-exclusive t e view d (assert_gpus_available t e settings info.gpu_ids (some name) s2) _
        (IsQuiet-exclusive view t s2 _
          (assert_gpus_available-IsQuiet t e view d settings info.gpu_ids (some name) s2) x2)
        (λ _ s3 q3.
          let (quiet, free) =
            assert_gpus_available-IsFree t e view d settings info.gpu_ids (some name) s2 s3 x2 q3 in
          begun s3 (IsQuiet-exclusive view t s2 s3 quiet x2) quiet
            (subst (λ gs. IsFree t e view d s3 gs (some name)) of_c.gpu_ids free))
    where
      begun :
          (s3 : S)
          → IsExclusive view t s3
          → IsQuiet view s2 s3
          → IsFree t e view d s3 (gpu_ids_from_labels t c.labels) (some name)
          → IsExclusive view t
              (after (lifted (e.start info.name s3)) (λ _. to_info t e info.name)).1
      begun s3 x3 quiet free =
          let x4 =
            subst (λ n. IsExclusive view t (lifted (e.start n s3)).1) (sym (of_c.name ∙ called))
              (started c name s2 s3 seen quiet free x3) in
          after-exclusive t e view d (lifted (e.start info.name s3)) _ x4 (λ _ s4 q4.
            IsQuiet-exclusive view t s4 _ (to_info-IsQuiet t e view d info.name s4)
              (subst (IsExclusive view t) (ap (λ p. p.1) q4) x4))

  found-eq-ok :
      (q : Result DockerError Container × S) (c : Container) (s : S)
      → found t e q ≡ (ok c, s)
      → q ≡ (ok c, s)
  found-eq-ok (err DockerError.not_found, u) c s h = cc
  found-eq-ok (err DockerError.api_error, u) c s h = cc
  found-eq-ok (err DockerError.unavailable, u) c s h = cc
  found-eq-ok (ok b, u) c s h = elim (Bool-cases (is_managed b.labels)) [
    | inl m ↦ cc (rw m at h)
    | inr m ↦ absurd (cc (rw m at h))
  ]

  -- A container that is found has the name that was asked for.
  pub managed_container-named :
      (name : String) (c : Container) (s s' : S)
      → managed_container t e name s ≡ (ok c, s')
      → c.name ≡ name
  unfolding managed_container
  managed_container-named name c s s' h = elim (Bool-cases (t.is_safe_name name)) [
    | inr bad ↦ absurd (cc (rw bad at h))
    | inl safe ↦
        (inspect-IsSeen e view d name s c s'
          (ap lifted (found-eq-ok (e.inspect name s) c s' (rw safe at h)))).called
  ]

  pub start-IsExclusive :
      (settings : Settings) (name : String) (s : S)
      → IsExclusive view t s
      → IsExclusive view t (start t e settings name s).1
  unfolding start
  start-IsExclusive settings name s x =
      let q0 = managed_container-IsQuiet t e view d name s in
      after-exclusive t e view d (managed_container t e name s) _
        (IsQuiet-exclusive view t s _ q0 x)
        (λ c s1 q1.
          asked c s1 (managed_container-named name c s s1 q1)
            (IsQuiet-exclusive view t s s1 (subst (IsQuiet view s) (ap (λ p. p.1) q1) q0) x))
    where
      by_status : Container → (info : WorkloadInfo) → Call S WorkloadInfo
      by_status c info =
          if elem info.status ("running" ∷ "restarting" ∷ [])
          then return info
          else if info.status == "paused"
          then raise workload_conflict
          else start_stopped t e settings name info

      decided :
          (c b : Container) (info : WorkloadInfo) (s2 : S)
          → view s2 name ≡ some b
          → b.name ≡ name
          → IsOf t b info
          → IsExclusive view t s2
          → IsExclusive view t (by_status c info s2).1
      decided c b info s2 seen called of_b x2 =
          elim (Bool-cases (elem info.status ("running" ∷ "restarting" ∷ []))) [
            | inl up ↦ rw up x2
            | inr down ↦ elim (Bool-cases (info.status == "paused")) [
              | inl paused ↦ rw (down, paused) x2
              | inr stopped ↦
                  rw (down, stopped)
                    (start_stopped-IsExclusive settings name b info s2 seen called of_b x2)
            ]
          ]

      asked :
          (c : Container) (s1 : S)
          → c.name ≡ name
          → IsExclusive view t s1
          → IsExclusive view t (after (to_info t e c.name s1) (by_status c)).1
      asked c s1 called x1 =
          after-exclusive t e view d (to_info t e c.name s1) _
            (IsQuiet-exclusive view t s1 _ (to_info-IsQuiet t e view d c.name s1) x1)
            (λ info s2 q2.
              let (b, look, of_b) = to_info-IsOf t e view d c.name s1 info s2 q2 in
              decided c b info s2 (subst (λ n. view s2 n ≡ some b) called look.seen)
                (look.called ∙ called) of_b (IsQuiet-exclusive view t s1 s2 look.quiet x1))
