-- ===== src/Node/Signing.antt =====
-- Signed requests to the node agent: `HMACSigner` and `NonceReplayCache` of
-- agent/openllmops_agent/agent_contract.py.
-- A text stands for its UTF-8 bytes. Clock times are numbers of seconds; the time in a header is any
-- integer. The headers are read by their names, whatever their case.
use Prim.Native.String.{◌++◌ as str_append, count}
use open_llmops.Prelude.{
  ℕ, ◌+◌, ◌*◌, ◌-◌, suc, String, not, ◌&&◌, Option, some, none, List, map, ◌==◌, string_eq, ltb,
  leb, max, if◌then◌else◌, ℤ, pos, negsuc, Result, ok, err, ◌>>=◌, ◌>>◌, raise_if, select, elem,
  put,
}

pub data SignatureVerificationError : Type 0 where
  incomplete invalid_timestamp expired nonce_used mismatch nonce_length : SignatureVerificationError

pub record Headers : Type 0 where
  pub timestamp : Option String
  pub nonce : Option String
  pub signature : Option String

-- What is called of the standard library: the digest under the shared secret, `int` and `str`.
pub record Primitives : Type 0 where
  pub hmac_sha256 : String → String
  pub int_of : String → Option ℤ
  pub str_of : ℕ → String

-- `a - b` without its sign, for a clock time and any integer.
abbrev pub distance : ℕ → ℤ → ℕ
distance a (pos b) = (a - b) + (b - a)
distance a (negsuc b) = a + suc b

abbrev pub signing_input : (body timestamp nonce : String) → String
signing_input body timestamp nonce =
    str_append "v1\n"
      (str_append timestamp (str_append "\n" (str_append nonce (str_append "\n" body))))

-- A header that is missing or empty.
abbrev pub required : Option String → Result SignatureVerificationError String
required none = err incomplete
required (some s) = if s == "" then err incomplete else ok s

abbrev pub time_of : Option ℤ → Result SignatureVerificationError ℤ
time_of none = err invalid_timestamp
time_of (some n) = ok n

module _ (p : Primitives) (max_clock_skew_seconds : ℕ) where
  abbrev pub signature_of : (body timestamp nonce : String) → String
  signature_of body timestamp nonce =
      str_append "v1=" (p.hmac_sha256 (signing_input body timestamp nonce))

  unfoldable pub sign : (body : String) (timestamp : ℕ) (nonce : String) → Headers
  sign body timestamp nonce = record {
    timestamp = some (p.str_of timestamp);
    nonce = some nonce;
    signature = some (signature_of body (p.str_of timestamp) nonce);
  }

  -- `verify` with `seen_nonces`; the caller's set is thrown away, so only the verdict is returned.
  unfoldable pub verify_signature :
      (body : String)
      → Headers
      → (now : ℕ) → List String
      → Result SignatureVerificationError (Unit {0})
  verify_signature body headers now seen = do
    timestamp ← required headers.timestamp
    nonce ← required headers.nonce
    supplied ← required headers.signature
    signed_at ← time_of (p.int_of timestamp)
    raise_if (ltb max_clock_skew_seconds (distance now signed_at)) expired
    raise_if (elem nonce seen) nonce_used
    raise_if (not (supplied == signature_of body timestamp nonce)) mismatch

  abbrev pub retention_seconds : ℕ
  retention_seconds = max 60 (2 * max_clock_skew_seconds + 1)

  -- `expires_at` by nonce.
  abbrev pub Nonces : Type 0
  Nonces = List (String × ℕ)

  abbrev pub or_empty : Option String → String
  or_empty none = ""
  or_empty (some s) = s

  abbrev pub live : ℕ → Nonces → Nonces
  live now cache = select (λ (e : String × ℕ). ltb now e.1) cache

  abbrev pub remembered :
      String
      → ℕ
      → Nonces
      → Result SignatureVerificationError (Unit {0})
      → Result SignatureVerificationError (Unit {0}) × Nonces
  remembered nonce now cache (err e) = (err e, cache)
  remembered nonce now cache (ok _) = (ok tt, put nonce (now + retention_seconds) cache)

  -- `NonceReplayCache.verify`: the verdict, and the cache that remains, also after an error.
  unfoldable pub verify :
      (body : String)
      → Headers
      → (now : ℕ) → Nonces
      → Result SignatureVerificationError (Unit {0}) × Nonces
  unfolding verify_signature
  verify body headers now cache =
      let nonce = or_empty headers.nonce in
      if leb 8 (count nonce) && leb (count nonce) 256
      then remembered nonce now (live now cache)
          (verify_signature body headers now (map (λ (e : String × ℕ). e.0) (live now cache)))
      else (err nonce_length, cache)
