-- ===== src/Node/Once.antt =====
-- A signed request is accepted once, and one that was just signed is accepted.
use mathlib.Core.Bool.{false≢true}
use Prim.Native.String.{count, ◌++◌ as str_append}
use text.Mathlib.TextLemmas.{length-append}
use open_llmops.Prelude.{
  ℕ, ◌+◌, ◌*◌, ◌-◌, ◌≤◌, ◌<◌, suc, String, ◌≡◌, ◌≢◌, inl, inr, refl, sym, ◌∙◌, ap, subst, Bool,
  true, false, ◌&&◌, some, none, List, [], ◌∷◌, ◌++◌, map, ◌==◌, string_eq, ltb, leb, ℤ, pos,
  negsuc, Result, ok, err, elem, find, any-select, any-map, any_mono, Bool-cases, arith, beq_refl,
  eq_of_beq,
}
use open_llmops.Node.Signing.{
  SignatureVerificationError, Primitives, distance, required, signature_of, sign, verify_signature,
  retention_seconds, or_empty, live, remembered, verify,
}
use open_llmops.Node.Nonces.{
  IsAccepted, verify_signature-IsAccepted, keeps, keeps-live, any-put_new,
}
use open_llmops.Node.Replays.{
  Request, IsOrdered, verify_request, run_requests, retention-le, IsGuarded, run-IsGuarded,
}

module _ (p : Primitives) (skew : ℕ) where
  abbrev Verdict : Type 0
  Verdict = Result SignatureVerificationError (Unit {0})

  abbrev live_nonces : ℕ → List (String × ℕ) → List String
  live_nonces now cache = map (λ (e : String × ℕ). e.0) (live p skew now cache)

  abbrev nonce_of : Request → String
  nonce_of r = or_empty p skew r.headers.nonce

  abbrev verdict_of : Request → List (String × ℕ) → Verdict
  verdict_of r cache = verify_signature p skew r.body r.headers r.now (live_nonces r.now cache)

  remembered-ok :
      (nonce : String) (now : ℕ) (cache : List (String × ℕ)) (q : Verdict)
      → (remembered p skew nonce now cache q).0 ≡ ok tt
      → (q ≡ ok tt)
        × (keeps nonce (now + retention_seconds p skew) (remembered p skew nonce now cache q).1
            ≡ true)
  remembered-ok nonce now cache (err e) h = absurd (cc)
  remembered-ok nonce now cache (ok _) h = (
    refl,
    any-put_new _ nonce (now + retention_seconds p skew) cache (rw (beq_refl nonce) (ground arith)),
  )

  -- What is left behind by a request that is accepted.
  verify-ok :
      (r : Request) (cache : List (String × ℕ))
      → (verify_request p skew r cache).0 ≡ ok tt
      → (verdict_of r cache ≡ ok tt)
        × (keeps (nonce_of r) (r.now + retention_seconds p skew) (verify_request p skew r cache).1
            ≡ true)
  unfolding verify
  verify-ok r cache h =
      elim (Bool-cases (leb 8 (count (nonce_of r)) && leb (count (nonce_of r)) 256)) [
        | inl fits ↦ rw fits (
            remembered-ok (nonce_of r) r.now (live p skew r.now cache) (verdict_of r cache)
              (rw fits at h))
        | inr bad ↦ absurd (bad_length (rw bad at h))
      ]
    where
      bad_length : ◌≡◌ {A = Verdict} (err SignatureVerificationError.nonce_length) (ok tt) → ⊥
      bad_length e = cc

  accepted :
      (r : Request) (cache : List (String × ℕ))
      → (verify_request p skew r cache).0 ≡ ok tt
      → IsAccepted p skew r.headers r.now (live_nonces r.now cache)
  accepted r cache h =
      verify_signature-IsAccepted p skew r.body r.headers r.now (live_nonces r.now cache)
        (verify-ok r cache h).0

  -- Two times near the same signed time are near each other.
  window :
      (a b : ℕ) (n : ℤ)
      → ltb skew (distance a n) ≡ false
      → ltb skew (distance b n) ≡ false
      → b ≤ a + 2 * skew
  window a b (pos n) h k = ground arith
  window a b (negsuc n) h k = ground arith

  -- A nonce that is kept and whose time is not over is refused.
  kept_is_seen :
      (nonce : String) (until now : ℕ) (cache : List (String × ℕ))
      → suc now ≤ until
      → keeps nonce until cache ≡ true
      → elem nonce (live_nonces now cache) ≡ true
  kept_is_seen nonce until now cache early h =
      any-map (λ x. x == nonce) (λ (e : String × ℕ). e.0) (live p skew now cache)
      ∙ (any-select (λ (e : String × ℕ). ltb now e.1) (λ (e : String × ℕ). e.0 == nonce) cache
          ∙ any_mono _ _ (λ e k. weaken (ltb now e.1) (e.0 == nonce) _ k) cache
              (keeps-live nonce until now cache early h))
    where
      weaken : (a b c : Bool) → (a && (b && c)) ≡ true → (a && b) ≡ true
      weaken a b c h = ground arith

  not_again :
      (nonce : String) (t now : ℕ) (n : ℤ) (cache : List (String × ℕ))
      → ltb skew (distance t n) ≡ false
      → ltb skew (distance now n) ≡ false
      → elem nonce (live_nonces now cache) ≡ false
      → IsGuarded p skew nonce (t + retention_seconds p skew) now cache
      → ⊥
  not_again nonce t now n cache first second new (inl over) =
      omega (arith, over, window t now n first second, retention-le p skew)
  not_again nonce t now n cache first second new (inr kept) = false≢true (
      sym new
      ∙ kept_is_seen nonce (t + retention_seconds p skew) now cache
          (omega (arith, window t now n first second, retention-le p skew)) kept)

  -- Once a signed request was accepted, a later one with the same time and nonce in its headers
  -- is not accepted, whatever requests come between, if the clock does not run backwards.
  pub verify-once :
      (r again : Request) (between : List Request) (cache : List (String × ℕ))
      → (verify_request p skew r cache).0 ≡ ok tt
      → IsOrdered r.now (between ++ again ∷ [])
      → again.headers.timestamp ≡ r.headers.timestamp
      → again.headers.nonce ≡ r.headers.nonce
      → (verify_request p skew again
          (run_requests p skew between (verify_request p skew r cache).1)).0
        ≢ ok tt
  verify-once r again between cache h order same_time same_nonce k =
      let before = run_requests p skew between (verify_request p skew r cache).1 in
      let first = accepted r cache h in
      let second = accepted again before k in
      let until = r.now + retention_seconds p skew in
      let nonce = second.nonce in
      let left =
        subst (λ n. keeps n until (verify_request p skew r cache).1 ≡ true)
          (named again r nonce second.has_nonce same_nonce) (verify-ok r cache h).1 in
      not_again nonce r.now again.now second.signed_at before
        (subst (λ n. ltb skew (distance r.now n) ≡ false) (same_read first second) first.in_window)
        second.in_window second.is_new
        (run-IsGuarded p skew nonce until r.now between again (verify_request p skew r cache).1
          order (omega arith) (inr left))
    where
      named :
          (x y : Request) (n : String)
          → x.headers.nonce ≡ some n
          → x.headers.nonce ≡ y.headers.nonce
          → nonce_of y ≡ n
      named x y n e q = ap (or_empty p skew) (sym q ∙ e)

      same_read :
          {seen unseen : List String} (a : IsAccepted p skew r.headers r.now seen)
          (b : IsAccepted p skew again.headers again.now unseen)
          → a.signed_at ≡ b.signed_at
      same_read a b = cc (a.has_timestamp, b.has_timestamp, a.reads, b.reads, same_time)

  beq_false : (s t : String) → s ≢ t → (s == t) ≡ false
  beq_false s t h = elim (Bool-cases (s == t)) [
    | inl e ↦ absurd (h (eq_of_beq {a = s} {b = t} e))
    | inr e ↦ e
  ]

  required_of : (s : String) → s ≢ "" → required (some s) ≡ ok s
  required_of s h = rw (beq_false s "" h) refl

  longer : (s t : String) → count t < count s → s ≢ t
  longer s t h e = omega (arith, h, ap count e)

  tagged : (digest : String) → str_append "v1=" digest ≢ ""
  tagged digest = longer (str_append "v1=" digest) "" (omega (arith, length-append "v1=" digest))

  new_nonce :
      (nonce : String) (d : List (String × ℕ))
      → find nonce d ≡ none
      → elem nonce (map (λ (e : String × ℕ). e.0) d) ≡ false
  new_nonce nonce [] h = refl
  new_nonce nonce ((k, v) ∷ d) h = elim (Bool-cases (k == nonce)) [
    | inl same ↦ absurd (cc (rw same at h))
    | inr other ↦ rw other (new_nonce nonce d (rw other at h))
  ]

  -- What the signer makes is accepted, over a set of nonces that has not this one.
  verify_signature-sign :
      (body nonce : String) (signed_at now : ℕ) (seen : List String)
      → p.int_of (p.str_of signed_at) ≡ some (pos signed_at)
      → p.str_of signed_at ≢ ""
      → nonce ≢ ""
      → ltb skew (distance now (pos signed_at)) ≡ false
      → elem nonce seen ≡ false
      → verify_signature p skew body (sign p skew body signed_at nonce) now seen ≡ ok tt
  unfolding verify_signature sign
  verify_signature-sign body nonce signed_at now seen read printed filled near new =
      rw
        (
          required_of (p.str_of signed_at) printed,
          required_of nonce filled,
          required_of (signature_of p skew body (p.str_of signed_at) nonce) (tagged _),
          read,
          near,
          new,
          beq_refl (signature_of p skew body (p.str_of signed_at) nonce),
        )
        refl

  -- Let the time that is printed be read again and not be empty. A request that was signed at a
  -- time within the clock skew, with a nonce of 8 to 256 characters that is not remembered, is
  -- accepted.
  pub verify-sign :
      (body nonce : String) (signed_at now : ℕ) (cache : List (String × ℕ))
      → p.int_of (p.str_of signed_at) ≡ some (pos signed_at)
      → p.str_of signed_at ≢ ""
      → (8 ≤ count nonce) × (count nonce ≤ 256)
      → (now ≤ signed_at + skew) × (signed_at ≤ now + skew)
      → find nonce (live p skew now cache) ≡ none
      → (verify p skew body (sign p skew body signed_at nonce) now cache).0 ≡ ok tt
  unfolding verify sign
  verify-sign body nonce signed_at now cache read printed (long, short) (late, early) new =
      rw
        (
          fits,
          verify_signature-sign body nonce signed_at now (live_nonces now cache) read printed
              (longer nonce "" (omega (arith, long))) near
              (new_nonce nonce (live p skew now cache) new),
        )
        refl
    where
      fits : (leb 8 (count nonce) && leb (count nonce) 256) ≡ true
      fits = ground arith

      near : ltb skew ((now - signed_at) + (signed_at - now)) ≡ false
      near = ground arith
