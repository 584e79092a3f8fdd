-- ===== src/Docker/Readable.antt =====
-- The labels that a container is created with are read again as what they were made of.
use open_llmops.Prelude.{
  ℕ, ◌≤◌, arith, ◌≡◌, refl, ◌∙◌, ap, String, true, false, not, Option, some, none, List, [], ◌∷◌,
  map, ℤ, pos, ◌==◌, string_eq, find, split_commas, join_commas, is_plain, split_commas-join_commas,
  All, beq_refl, find-put_other, Bool-cases, inl, inr, select,
}
use open_llmops.Docker.Labels.{
  Dict, Texts, managed_label, gpu_label, generation_label, at_least_one, generation_from_labels,
  owner_type_label, endpoint_label, service_type_label, port_label, output_path_label,
  dataset_manifest_path_label, base_template_label, candidate_template_label,
  training_algorithm_label, put_text, get_or, has, is_managed, ints, ids_of_text, or_no_ids,
  gpu_ids_from_labels, base_labels, owner_type_name,
}
use open_llmops.Docker.Allocate.{Launch, put_port, labels_of}

-- What is relied on of `int` and `str`: a printed integer is read again, is not empty, and has no
-- comma.
pub record IsTexts (t : Texts) : Type 0 where
  pub int-str : (n : ℤ) → t.int_of (t.str_of n) ≡ some n
  pub str_filled : (n : ℤ) → (t.str_of n == "") ≡ false
  pub str_plain : (n : ℤ) → is_plain (t.str_of n) ≡ true

find-put_text :
    (k l : String) (o : Option String) (d : Dict)
    → (k == l) ≡ false
    → find l (put_text k o d) ≡ find l d
find-put_text k l none d h = refl
find-put_text k l (some v) d h = elim (Bool-cases (v == "")) [
  | inl blank ↦ rw blank refl
  | inr filled ↦ rw filled (find-put_other k l v d h)
]

find-put_port :
    (t : Texts) (l : String) (o : Option ℤ) (d : Dict)
    → (port_label == l) ≡ false
    → find l (put_port t o d) ≡ find l d
find-put_port t l none d h = refl
find-put_port t l (some n) d h = find-put_other port_label l (t.str_of n) d h

-- A label that every container has is found as it was put.
find-labels_of :
    (t : Texts) (l : Launch) (k : String)
    → (port_label == k) ≡ false
    → (training_algorithm_label == k) ≡ false
    → (candidate_template_label == k) ≡ false
    → (base_template_label == k) ≡ false
    → (dataset_manifest_path_label == k) ≡ false
    → (output_path_label == k) ≡ false
    → (service_type_label == k) ≡ false
    → (endpoint_label == k) ≡ false
    → (owner_type_label == k) ≡ false
    → find k (labels_of t l) ≡ find k (base_labels t l.kind l.workload_id l.gpu_ids l.generation)
unfolding labels_of
find-labels_of t l k h1 h2 h3 h4 h5 h6 h7 h8 h9 =
    find-put_port t k l.port _ h1
    ∙ (find-put_text training_algorithm_label k l.training_algorithm _ h2
        ∙ (find-put_text candidate_template_label k l.candidate_template _ h3
            ∙ (find-put_text base_template_label k l.base_template _ h4
                ∙ (find-put_text dataset_manifest_path_label k l.dataset_manifest_path _ h5
                    ∙ (find-put_text output_path_label k l.output_path _ h6
                        ∙ (find-put_text service_type_label k l.service_type _ h7
                            ∙ (find-put_text endpoint_label k l.endpoint _ h8
                                ∙ find-put_other owner_type_label k (owner_type_name l.owner_type)
                                    (base_labels t l.kind l.workload_id l.gpu_ids l.generation)
                                    h9)))))))

pub gpu_label-labels_of :
    (t : Texts) (l : Launch)
    → find gpu_label (labels_of t l) ≡ some (join_commas (map t.str_of l.gpu_ids))
gpu_label-labels_of t l = find-labels_of t l gpu_label refl refl refl refl refl refl refl refl refl

module _ (t : Texts) (laws : IsTexts t) where
  select-printed : (ns : List ℤ) → select (λ s. not (s == "")) (map t.str_of ns) ≡ map t.str_of ns
  select-printed [] = refl
  select-printed (n ∷ ns) = rw (laws.str_filled n, select-printed ns) refl

  ints-printed : (ns : List ℤ) → ints t (map t.str_of ns) ≡ some ns
  ints-printed [] = refl
  ints-printed (n ∷ ns) = rw (laws.int-str n, ints-printed ns) refl

  All-plain : (ns : List ℤ) → All (λ s. is_plain s ≡ true) (map t.str_of ns)
  All-plain [] = tt
  All-plain (n ∷ ns) = (laws.str_plain n, All-plain ns)

  empty_read : select (λ s. not (s == "")) (split_commas (join_commas [])) ≡ []
  unfolding split_commas join_commas
  empty_read = refl

  read :
      (ns : List ℤ)
      → select (λ s. not (s == "")) (split_commas (join_commas (map t.str_of ns))) ≡ map t.str_of ns
  read [] = empty_read
  read (n ∷ ns) =
      ap (select (λ s. not (s == "")))
        (split_commas-join_commas (t.str_of n) (map t.str_of ns) (All-plain (n ∷ ns)))
      ∙ select-printed (n ∷ ns)

  read_all : (ns : List ℤ) → ids_of_text t (join_commas (map t.str_of ns)) ≡ ns
  read_all ns = ap (λ ss. or_no_ids (ints t ss)) (read ns) ∙ ap or_no_ids (ints-printed ns)

managed_label-labels_of :
    (t : Texts) (l : Launch) → find managed_label (labels_of t l) ≡ some "true"
managed_label-labels_of t l =
    find-labels_of t l managed_label refl refl refl refl refl refl refl refl refl

generation_label-labels_of :
    (t : Texts) (l : Launch)
    → find generation_label (labels_of t l) ≡ some (t.str_of (pos l.generation))
generation_label-labels_of t l =
    find-labels_of t l generation_label refl refl refl refl refl refl refl refl refl

at_least_one-pos : (t : Texts) (n : ℕ) → 1 ≤ n → at_least_one t (some (pos n)) ≡ n
at_least_one-pos t n h = omega arith

pub get_or-found : (k z v : String) (d : Dict) → find k d ≡ some v → get_or k z d ≡ v
get_or-found k z v d h = ap (λ (o : Option String). elim o [ some w ↦ w | none ↦ z ]) h

has-found : (k v : String) (d : Dict) → find k d ≡ some v → has k v d ≡ true
has-found k v d h =
    ap (λ (o : Option String). elim o [ some w ↦ w == v | none ↦ false ]) h ∙ beq_refl v

-- Let a printed integer be read again, not be empty and have no comma, and let the generation be
-- at least 1. From the labels that a container is created with, the runner reads back the cards
-- and the generation that were asked for, and that it is managed.
pub gpu_ids_from_labels-labels_of :
    (t : Texts) (l : Launch)
    → IsTexts t
    → 1 ≤ l.generation
    → (gpu_ids_from_labels t (labels_of t l) ≡ l.gpu_ids)
      × (is_managed (labels_of t l) ≡ true)
      × (generation_from_labels t (labels_of t l) ≡ l.generation)
gpu_ids_from_labels-labels_of t l laws positive = (
  ap (ids_of_text t) (get_or-found gpu_label "" _ (labels_of t l) (gpu_label-labels_of t l))
      ∙ read_all t laws l.gpu_ids,
  has-found managed_label "true" (labels_of t l) (managed_label-labels_of t l),
  ap (λ s. at_least_one t (t.int_of s))
        (get_or-found generation_label "1" _ (labels_of t l) (generation_label-labels_of t l))
      ∙ (ap (at_least_one t) (laws.int-str (pos l.generation))
          ∙ at_least_one-pos t l.generation positive),
)
