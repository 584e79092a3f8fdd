-- ===== src/Docker/Creating.antt =====
-- The two operations that make a container active: `launch` and `start`.
use open_llmops.Prelude.{
  ◌≡◌, ◌⊎◌, inl, inr, refl, sym, ◌∙◌, ap, subst, String, Bool, true, false, ◌&&◌, Option, none,
  List, Result, ok, err, ℤ, elem, int_eq, string_eq, ◌==◌, arith, Bool-cases, eq_of_beq, beq_refl,
}
use open_llmops.Docker.Labels.{
  Dict, Texts, gpu_label, ids_of_text, gpu_ids_from_labels, workload_name,
}
use open_llmops.Docker.Info.{Container}
use open_llmops.Docker.Engine.{
  DockerError, not_found, api_error, unavailable, Failure, Creation, Engine, Call, after,
}
use open_llmops.Docker.Allocate.{
  Settings, Launch, labels_of, to_info, assert_gpus_available, name_free, created, run_container,
  launch,
}
use open_llmops.Docker.Moves.{
  IsQuiet, IsQuietBut, IsDocker, AreGiven, Uses, IsExclusive, IsKept-uses, IsQuiet-exclusive,
}
use open_llmops.Docker.Quiet.{to_info-IsQuiet}
use open_llmops.Docker.Checks.{assert_gpus_available-IsQuiet, name_free-IsQuiet}
use open_llmops.Docker.Readable.{gpu_label-labels_of, get_or-found}
use open_llmops.Docker.Grants.{IsFree, assert_gpus_available-IsFree}

pub last : (a b r : Bool) → (a && (b && r)) ≡ true → r ≡ true
last a b r h = ground arith

module _ {S : Type 0} (t : Texts) (e : Engine S) (view : S → String → Option Container)
    (d : IsDocker view e) where
  -- A container of this name may come to use these cards, and nothing else changes for the worse.
  pub IsExclusive-one :
      (s s' : S) (name : String) (gs : List ℤ)
      → IsQuietBut view name s s'
      → ((g : ℤ) → Uses view t s' name g → (elem g gs ≡ true) ⊎ Uses view t s name g)
      → ((n : String) (g : ℤ) → elem g gs ≡ true → Uses view t s n g → name ≡ n)
      → IsExclusive view t s
      → IsExclusive view t s'
  IsExclusive-one s s' name gs others mine free x n m g u v = elim (Bool-cases (n == name)) [
    | inl a ↦ elim (Bool-cases (m == name)) [
      | inl b ↦ eq_of_beq {a = n} {b = name} a ∙ sym (eq_of_beq {a = m} {b = name} b)
      | inr b ↦
          eq_of_beq {a = n} {b = name} a
          ∙ against m g (kept m g b v)
              (mine g (subst (λ z. Uses view t s' z g) (eq_of_beq {a = n} {b = name} a) u))
    ]
    | inr a ↦ elim (Bool-cases (m == name)) [
      | inl b ↦ sym (
          eq_of_beq {a = m} {b = name} b
          ∙ against n g (kept n g a u)
              (mine g (subst (λ z. Uses view t s' z g) (eq_of_beq {a = m} {b = name} b) v)))
      | inr b ↦ x n m g (kept n g a u) (kept m g b v)
    ]
  ]
    where
      kept : (n : String) (g : ℤ) → (n == name) ≡ false → Uses view t s' n g → Uses view t s n g
      kept n g differ (c, w, used) =
          let k = others n c (λ q. cc (rw (q, beq_refl name) at differ)) w in
          (k.old, k.was, IsKept-uses view t g (view s n) c k used)

      against :
          (m : String) (g : ℤ)
          → Uses view t s m g
          → (elem g gs ≡ true) ⊎ Uses view t s name g
          → name ≡ m
      against m g v (inl asked) = free m g asked v
      against m g v (inr old) = x name m g old v

  created-state : (q : Result DockerError (Unit {0}) × S) → (created t e q).1 ≡ q.1
  created-state (ok _, s) = refl
  created-state (err not_found, s) = refl
  created-state (err api_error, s) = refl
  created-state (err unavailable, s) = refl

  -- The cards of a created container are those of the labels that it is given.
  given_cards :
      (l : Launch) (labels : Dict)
      → AreGiven (labels_of t l) labels
      → gpu_ids_from_labels t labels ≡ gpu_ids_from_labels t (labels_of t l)
  given_cards l labels given =
      let v = gpu_label-labels_of t l in
      ap (ids_of_text t) (
        get_or-found gpu_label "" _ labels (given gpu_label _ v)
        ∙ sym (get_or-found gpu_label "" _ (labels_of t l) v))

  -- The cards are those of the labels; a container of the name may have been there.
  run_container-exclusive :
      (l : Launch) (s : S)
      → gpu_ids_from_labels t (labels_of t l) ≡ l.gpu_ids
      → IsExclusive view t s
      → IsFree t e view d s l.gpu_ids none
      → IsExclusive view t (run_container t e l s).1
  unfolding run_container
  run_container-exclusive l s read x free =
      subst (IsExclusive view t) (sym (created-state (e.create m s))) (
        IsExclusive-one s (e.create m s).1 m.name l.gpu_ids (d.create-others m s) mine
          (λ n g k u. cc (free n g k u)) x)
    where
      m : Creation
      m = record {
        name = workload_name t l.kind l.workload_id;
        image = l.image;
        command = l.command;
        labels = labels_of t l;
      }

      mine :
          (g : ℤ)
          → Uses view t (e.create m s).1 m.name g
          → (elem g l.gpu_ids ≡ true) ⊎ Uses view t s m.name g
      mine g (c, v, u) = elim (d.create-same m s c v) [
        | inl made ↦
            inl (subst (λ gs. elem g gs ≡ true) (given_cards l c.labels made ∙ read) (last _ _ _ u))
        | inr k ↦ inr (k.old, k.was, IsKept-uses view t g (view s m.name) c k u)
      ]

  pub after-exclusive :
      {A B : Type 0} (q : Result Failure A × S) (next : A → Call S B)
      → IsExclusive view t q.1
      → ((a : A) (s : S) → q ≡ (ok a, s) → IsExclusive view t (next a s).1)
      → IsExclusive view t (after q next).1
  after-exclusive (ok a, s) next x h = h a s refl
  after-exclusive (err b, s) next x h = x

  pub launch-IsExclusive :
      (settings : Settings) (l : Launch) (s : S)
      → gpu_ids_from_labels t (labels_of t l) ≡ l.gpu_ids
      → IsExclusive view t s
      → IsExclusive view t (launch t e settings l s).1
  unfolding launch
  launch-IsExclusive settings l s read x =
      let name = workload_name t l.kind l.workload_id in
      let named = name_free-IsQuiet t e view d s (e.inspect name s) (d.inspect-IsQuiet name s) in
      after-exclusive (name_free t e (e.inspect name s)) _ (IsQuiet-exclusive view t s _ named x)
        (λ _ s1 q1.
          checked s1
            (IsQuiet-exclusive view t s s1 (subst (IsQuiet view s) (ap (λ p. p.1) q1) named) x))
    where
      describe :
          (s3 : S)
          → IsExclusive view t s3
          → IsExclusive view t (to_info t e (workload_name t l.kind l.workload_id) s3).1
      describe s3 x3 =
          IsQuiet-exclusive view t s3 _
            (to_info-IsQuiet t e view d (workload_name t l.kind l.workload_id) s3) x3

      made :
          (s2 : S)
          → IsExclusive view t s2
          → IsFree t e view d s2 l.gpu_ids none
          → IsExclusive view t
              (after
                (run_container t e l s2)
                (λ _. to_info t e (workload_name t l.kind l.workload_id))).1
      made s2 x2 free =
          let x3 = run_container-exclusive l s2 read x2 free in
          after-exclusive (run_container t e l s2) _ x3
            (λ _ s3 q3. describe s3 (subst (IsExclusive view t) (ap (λ p. p.1) q3) x3))

      checked :
          (s1 : S)
          → IsExclusive view t s1
          → IsExclusive view t
              (after (assert_gpus_available t e settings l.gpu_ids none s1) (λ _ s2.
                after
                  (run_container t e l s2)
                  (λ _. to_info t e (workload_name t l.kind l.workload_id)))).1
      checked s1 x1 =
          after-exclusive (assert_gpus_available t e settings l.gpu_ids none s1) _
            (IsQuiet-exclusive view t s1 _
              (assert_gpus_available-IsQuiet t e view d settings l.gpu_ids none s1) x1)
            (λ _ s2 q2.
              let (quiet, free) =
                assert_gpus_available-IsFree t e view d settings l.gpu_ids none s1 s2 x1 q2 in
              made s2 (IsQuiet-exclusive view t s1 s2 quiet x1) free)
