-- ===== src/Docker/Returns.antt =====
-- What a call of the runner that returns has gone through.
use open_llmops.Prelude.{
  ◌≡◌, refl, sym, ap, subst, String, Bool, true, false, Option, some, List, Result, ok, err, elem,
  string_eq,
}
use open_llmops.Docker.Labels.{is_managed}
use open_llmops.Docker.Info.{Container}
use open_llmops.Docker.Engine.{DockerError, Failure, Engine, Call, after, lifted}
use open_llmops.Docker.Moves.{IsQuiet, IsDocker}

module _ {S : Type 0} where
  -- A sequence that returns has returned at its first call.
  pub after-eq-ok :
      {A B : Type 0} (q : Result Failure A × S) (next : A → Call S B) (b : B) (s' : S)
      → after q next ≡ (ok b, s')
      → (a : A) × (s : S) × (q ≡ (ok a, s)) × (next a s ≡ (ok b, s'))
  after-eq-ok (ok a, s) next b s' h = (a, s, refl, h)
  after-eq-ok (err x, s) next b s' h = cc

  pub lifted-eq-ok :
      {A : Type 0} (q : Result DockerError A × S) (a : A) (s : S)
      → lifted q ≡ (ok a, s)
      → q ≡ (ok a, s)
  lifted-eq-ok (ok a', s') a s h = cc
  lifted-eq-ok (err x, s') a s h = cc

  -- A branch on a test that raises where the test holds.
  pub if-eq-ok :
      {A : Type 0} (test : Bool) (x : Failure) (rest : Result Failure A × S) (s s' : S) (a : A)
      → elim test [ true ↦ (err x, s) | false ↦ rest ] ≡ (ok a, s')
      → (test ≡ false) × (rest ≡ (ok a, s'))
  if-eq-ok true x rest s s' a h = cc
  if-eq-ok false x rest s s' a h = (refl, h)

module _ {S : Type 0} (e : Engine S) (view : S → String → Option Container)
    (d : IsDocker view e) where
  -- An inspection that returns shows the container as it is then.
  pub record IsSeen (s : S) (n : String) (c : Container) (s' : S) : Type 0 where
    pub quiet : IsQuiet view s s'
    pub seen : view s' n ≡ some c
    pub called : c.name ≡ n

  pub inspect-IsSeen :
      (n : String) (s : S) (c : Container) (s' : S)
      → lifted (e.inspect n s) ≡ (ok c, s')
      → IsSeen s n c s'
  inspect-IsSeen n s c s' h =
      let q = lifted-eq-ok (e.inspect n s) c s' h in
      let here_now =
        subst (λ u. view u n ≡ some c) (ap (λ p. p.1) q) (d.inspect-ok n s c (ap (λ p. p.0) q)) in
      record {
        quiet = subst (IsQuiet view s) (ap (λ p. p.1) q) (d.inspect-IsQuiet n s);
        seen = here_now;
        called = d.named s' n c here_now;
      }

  -- The containers of these names are managed.
  abbrev pub IsListed : S → List String → Type 0
  IsListed s ns =
      (n : String) (c : Container)
      → elem n ns ≡ true
      → view s n ≡ some c
      → is_managed c.labels ≡ true

  pub IsListed-IsQuiet :
      (s s' : S) (ns : List String) → IsQuiet view s s' → IsListed s ns → IsListed s' ns
  IsListed-IsQuiet s s' ns q h n c m v =
      let k = q n c v in subst (λ l. is_managed l ≡ true) k.same_labels (h n k.old m k.was)

  pub list-IsListed :
      (s : S) (ns : List String) (s' : S)
      → lifted (e.list_managed s) ≡ (ok ns, s')
      → IsQuiet view s s'
        × ((n : String) (c : Container) → view s' n ≡ some c → is_managed c.labels ≡ elem n ns)
  list-IsListed s ns s' h =
      let q = lifted-eq-ok (e.list_managed s) ns s' h in
      (
        subst (IsQuiet view s) (ap (λ p. p.1) q) (d.list-IsQuiet s),
        λ n c v.
            d.list-ok s ns n c (ap (λ p. p.0) q)
              (subst (λ u. view u n ≡ some c) (sym (ap (λ p. p.1) q)) v),
      )
