-- ===== src/Node/Nonces.antt =====
-- What the cache of nonces keeps, and what an accepted request satisfies.
use open_llmops.Prelude.{
  ℕ, ◌≤◌, suc, String, ◌≡◌, inl, inr, sym, ap, subst, Bool, true, false, not, ◌&&◌, ◌||◌, Option,
  some, none, List, [], ◌∷◌, ◌==◌, string_eq, ltb, leb, ℤ, Result, ok, ◌>>◌, raise_if, >>=-eq-ok,
  raise_if-eq-ok, elem, put, any, any_mono, Bool-cases, arith, eq_of_beq,
}
use open_llmops.Node.Signing.{
  SignatureVerificationError, expired, nonce_used, mismatch, Headers, Primitives, distance,
  required, time_of, signature_of, verify_signature,
}

required-ok : (o : Option String) (s : String) → required o ≡ ok s → o ≡ some s
required-ok none s h = absurd (cc)
required-ok (some t) s h = elim (Bool-cases (t == "")) [
  | inl nothing ↦ absurd (cc (rw nothing at h))
  | inr text ↦ ap some (ok_eq (rw text at h))
]
  where
    ok_eq : ◌≡◌ {A = Result SignatureVerificationError String} (ok t) (ok s) → t ≡ s
    ok_eq h = cc

time_of-ok : (o : Option ℤ) (n : ℤ) → time_of o ≡ ok n → o ≡ some n
time_of-ok none n h = absurd (cc)
time_of-ok (some m) n h = ap some (cc)

-- What an accepted request satisfies.
pub record IsAccepted (p : Primitives) (skew : ℕ) (headers : Headers) (now : ℕ) (seen : List String)
    : Type 0 where
  pub timestamp : String
  pub nonce : String
  pub signed_at : ℤ
  pub has_timestamp : headers.timestamp ≡ some timestamp
  pub has_nonce : headers.nonce ≡ some nonce
  pub reads : p.int_of timestamp ≡ some signed_at
  pub in_window : ltb skew (distance now signed_at) ≡ false
  pub is_new : elem nonce seen ≡ false

pub verify_signature-IsAccepted :
    (p : Primitives) (skew : ℕ) (body : String) (headers : Headers) (now : ℕ) (seen : List String)
    → verify_signature p skew body headers now seen ≡ ok tt
    → IsAccepted p skew headers now seen
unfolding verify_signature
verify_signature-IsAccepted p skew body headers now seen h =
    let (ts, e1, h1) = >>=-eq-ok (required headers.timestamp) _ h in
    let (nonce, e2, h2) = >>=-eq-ok (required headers.nonce) _ h1 in
    let (supplied, e3, h3) = >>=-eq-ok (required headers.signature) _ h2 in
    let (n, e4, h4) = >>=-eq-ok (time_of (p.int_of ts)) _ h3 in
    let last = raise_if (not (supplied == signature_of p skew body ts nonce)) mismatch in
    let (window, h5) =
      raise_if-eq-ok (ltb skew (distance now n)) expired
        (raise_if (elem nonce seen) nonce_used >> last) h4 in
    let (new, _) = raise_if-eq-ok (elem nonce seen) nonce_used last h5 in
    record {
      timestamp = ts;
      nonce = nonce;
      signed_at = n;
      has_timestamp = required-ok headers.timestamp ts e1;
      has_nonce = required-ok headers.nonce nonce e2;
      reads = time_of-ok (p.int_of ts) n e4;
      in_window = window;
      is_new = new;
    }

-- The nonce is in the cache at least until `until`.
abbrev pub keeps : String → ℕ → List (String × ℕ) → Bool
keeps nonce until cache = any (λ (e : String × ℕ). e.0 == nonce && leb until e.1) cache

pub keeps-live :
    (nonce : String) (until now : ℕ) (cache : List (String × ℕ))
    → suc now ≤ until
    → keeps nonce until cache ≡ true
    → any (λ (e : String × ℕ). ltb now e.1 && (e.0 == nonce && leb until e.1)) cache ≡ true
keeps-live nonce until now cache early h = any_mono _ _ each cache h
  where
    each :
        (e : String × ℕ)
        → (e.0 == nonce && leb until e.1) ≡ true
        → (ltb now e.1 && (e.0 == nonce && leb until e.1)) ≡ true
    each e k = ground (arith, Bool-cases (e.0 == nonce))

-- Putting an entry that is good for the test keeps a good entry in.
pub any-put :
    (q : String × ℕ → Bool) (k : String) (v : ℕ) (d : List (String × ℕ))
    → ((u : ℕ) → q (k, u) ≡ true → q (k, v) ≡ true)
    → any q d ≡ true
    → any q (put k v d) ≡ true
any-put q k v [] f h = absurd (cc)
any-put q k v ((j, u) ∷ d) f h = elim (Bool-cases (j == k)) [
  | inl same ↦ rw same (
      both (q (j, u)) (q (j, v)) (any q d)
        (subst (λ x. q (x, u) ≡ true → q (x, v) ≡ true) (sym (eq_of_beq {a = j} {b = k} same))
          (f u))
        h)
  | inr other ↦ rw other (or_mono (q (j, u)) (any q d) _ (any-put q k v d f) h)
]
  where
    both : (a b r : Bool) → (a ≡ true → b ≡ true) → (a || r) ≡ true → (b || r) ≡ true
    both a b r g e = ground arith

    or_mono : (a r s : Bool) → (r ≡ true → s ≡ true) → (a || r) ≡ true → (a || s) ≡ true
    or_mono a r s g e = ground arith

pub any-put_new :
    (q : String × ℕ → Bool) (k : String) (v : ℕ) (d : List (String × ℕ))
    → q (k, v) ≡ true
    → any q (put k v d) ≡ true
any-put_new q k v [] h = rw h
any-put_new q k v ((j, u) ∷ d) h = elim (Bool-cases (j == k)) [
  | inl same ↦ rw (same, eq_of_beq {a = j} {b = k} same, h)
  | inr other ↦ rw other (or_right (q (j, u)) _ (any-put_new q k v d h))
]
  where
    or_right : (a b : Bool) → b ≡ true → (a || b) ≡ true
    or_right a b h = ground arith
