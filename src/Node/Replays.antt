-- ===== src/Node/Replays.antt =====
-- Until when a nonce stays in the cache, over the requests that come.
use Prim.Native.String.{count}
use open_llmops.Prelude.{
  ℕ, ◌+◌, ◌*◌, ◌≤◌, suc, String, ◌≡◌, ◌⊎◌, inl, inr, ◌∙◌, Bool, true, ◌&&◌, List, [], ◌∷◌, ◌++◌,
  ◌==◌, string_eq, ltb, leb, Result, ok, err, any-select, Bool-cases, arith,
}
use open_llmops.Node.Signing.{
  SignatureVerificationError, Headers, Primitives, retention_seconds, or_empty, live, remembered,
  verify,
}
use open_llmops.Node.Nonces.{keeps, keeps-live, any-put}

pub record Request : Type 0 where
  pub body : String
  pub headers : Headers
  pub now : ℕ

-- The clock does not run backwards, from the time `t` on.
abbrev pub IsOrdered : ℕ → List Request → Type 0
IsOrdered t [] = Unit
IsOrdered t (r ∷ rs) = (t ≤ r.now) × IsOrdered r.now rs

module _ (p : Primitives) (skew : ℕ) where
  abbrev pub verify_request :
      Request → List (String × ℕ) → Result SignatureVerificationError (Unit {0}) × List (String × ℕ)
  verify_request r cache = verify p skew r.body r.headers r.now cache

  -- The cache after requests that come one after the other.
  abbrev pub run_requests : List Request → List (String × ℕ) → List (String × ℕ)
  run_requests [] cache = cache
  run_requests (r ∷ rs) cache = run_requests rs (verify_request r cache).1

  pub retention-le : suc (2 * skew) ≤ retention_seconds p skew
  retention-le = omega arith

  -- The nonce is remembered, or its time is over at `t`.
  abbrev pub IsGuarded : String → ℕ → ℕ → List (String × ℕ) → Type 0
  IsGuarded nonce until t cache = (until ≤ t) ⊎ (keeps nonce until cache ≡ true)

  pub le-cases : (a b : ℕ) → (a ≤ b) ⊎ (suc b ≤ a)
  le-cases a b = elim (Bool-cases (leb a b)) [
    | inl h ↦ inl (ground arith)
    | inr h ↦ inr (ground arith)
  ]

  live-keeps :
      (nonce : String) (until now : ℕ) (cache : List (String × ℕ))
      → suc now ≤ until
      → keeps nonce until cache ≡ true
      → keeps nonce until (live p skew now cache) ≡ true
  live-keeps nonce until now cache early h =
      any-select (λ (e : String × ℕ). ltb now e.1)
        (λ (e : String × ℕ). e.0 == nonce && leb until e.1) cache
      ∙ keeps-live nonce until now cache early h

  remembered-keeps :
      (nonce other : String) (until now : ℕ) (cache : List (String × ℕ))
      (q : Result SignatureVerificationError (Unit {0}))
      → until ≤ now + retention_seconds p skew
      → keeps nonce until cache ≡ true
      → keeps nonce until (remembered p skew other now cache q).1 ≡ true
  remembered-keeps nonce other until now cache (err e) le h = h
  remembered-keeps nonce other until now cache (ok _) le h =
      any-put (λ (e : String × ℕ). e.0 == nonce && leb until e.1) other
        (now + retention_seconds p skew) cache
        (λ u k. later (other == nonce) (leb until u) _ enough k) h
    where
      enough : leb until (now + retention_seconds p skew) ≡ true
      enough = ground arith

      later : (a b c : Bool) → c ≡ true → (a && b) ≡ true → (a && c) ≡ true
      later a b c e k = ground arith

  -- A later request does not free the nonce early.
  verify-IsGuarded :
      (nonce : String) (until t : ℕ) (r : Request) (cache : List (String × ℕ))
      → t ≤ r.now
      → until ≤ t + retention_seconds p skew
      → IsGuarded nonce until t cache
      → IsGuarded nonce until r.now (verify_request r cache).1
  unfolding verify
  verify-IsGuarded nonce until t r cache le bound (inl over) = inl (omega (arith, le, over))
  verify-IsGuarded nonce until t r cache le bound (inr kept) = elim (le-cases until r.now) [
    | inl over ↦ inl over
    | inr early ↦
        inr
          (elim (Bool-cases (
            leb 8 (count (or_empty p skew r.headers.nonce))
            && leb (count (or_empty p skew r.headers.nonce)) 256)) [
              | inr bad ↦ rw bad kept
              | inl fits ↦ rw fits (
                  remembered-keeps nonce (or_empty p skew r.headers.nonce) until r.now
                    (live p skew r.now cache) _ (omega (arith, le, bound))
                    (live-keeps nonce until r.now cache early kept))
            ])
  ]

  -- Nor do the requests in between.
  pub run-IsGuarded :
      (nonce : String) (until t : ℕ) (rs : List Request) (last : Request)
      (cache : List (String × ℕ))
      → IsOrdered t (rs ++ last ∷ [])
      → until ≤ t + retention_seconds p skew
      → IsGuarded nonce until t cache
      → IsGuarded nonce until last.now (run_requests rs cache)
  run-IsGuarded nonce until t [] last cache (le, _) bound (inl over) = inl (omega (arith, le, over))
  run-IsGuarded nonce until t [] last cache (le, _) bound (inr kept) = inr kept
  run-IsGuarded nonce until t (r ∷ rs) last cache (le, rest) bound g =
      run-IsGuarded nonce until r.now rs last (verify_request r cache).1 rest
        (omega (arith, le, bound)) (verify-IsGuarded nonce until t r cache le bound g)
