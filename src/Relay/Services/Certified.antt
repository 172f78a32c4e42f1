-- ===== src/Relay/Services/Certified.antt =====
-- packages/relay-core/src/core.ts, RelayCore.verifyService with packages/crypto/src: the relay's
-- trust filled by the grant chains and the service proofs.
use tnp.Prelude.{
  ℕ, ◌/◌, ◌≡◌, refl, sym, ap, ◌∙◌, Bool, true, false, ◌⊎◌, inl, inr, Option, none, some, List, [],
  ◌∷◌, Result, ok, err, whole, Bool-cases, arith, Result-cases, bind-eq-ok, require-eq-ok, ok_inj,
  length, ◌==◌,
}
use tnp.Crypto.Encoding.{EncodingError, raw, decode_base64_strict, parse_public_key}
use tnp.Crypto.Grants.{GrantInput, service_node}
use tnp.Crypto.Grants.Verifying.{
  Signatures, Stop, refused, thrown, VerifyFailure, VerifiedChain, VerifyOptions,
}
use tnp.Crypto.Grants.Verifying
use tnp.Crypto.Grants.Verified.{IsVerified}
use tnp.Crypto.Grants.Answers.{verify_chain-IsVerified}
use tnp.Crypto.ServiceAuth.{ServiceAuthStatement, encode_statement, or_false}
use tnp.Crypto.ServiceAuth
use tnp.Protocol.ErrorCode.{auth_failed}
use tnp.Relay.State.{Relay, Environment}
use tnp.Relay.Services.{
  ServiceAuth, ChainError, expired, withdrawn, invalid, Subject, Trust, refuse, contend, is_proof,
  verify_service, chain_code,
}

-- `verifyChain(chain, { trustedRoots: [domainKey], now, … })`
abbrev pub relay_options : List ℕ → ℕ → VerifyOptions
relay_options root now = record {
  trusted_roots = raw root ∷ [];
  now = whole now;
  revoked_keys = [];
  known_serials = λ issuer subject. none;
}

-- The reasons that the relay tells apart. A domain key of 32 bytes and a time that is a safe integer
-- are in order, so that nothing is thrown.
unfoldable pub chain_answer : Result Stop VerifiedChain → Result ChainError Subject
chain_answer (ok v) = ok (record { key = v.subject; not_after = v.not_after })
chain_answer (err (refused VerifyFailure.expired m)) = err expired
chain_answer (err (refused VerifyFailure.revoked m)) = err withdrawn
chain_answer (err e) = err invalid

abbrev pub stated : (endpoint name challenge key : List ℕ) → ServiceAuthStatement
stated endpoint name challenge key = record {
  name = name;
  endpoint = endpoint;
  challenge = challenge;
  node_key = raw key;
}

-- `decode` reads the JSON of the proof.
unfoldable pub crypto_trust :
    Signatures
    → (endpoint : List ℕ) → (decode : List ℕ → Option (ServiceAuth GrantInput)) → Trust GrantInput
crypto_trust scheme endpoint decode = record {
  decode_service_auth = decode;
  verify_chain = λ chain root now name.
      chain_answer
        (Verifying.verify_chain scheme chain (relay_options root now) service_node (some name));
  verify_service_auth = λ name challenge key signature.
      ServiceAuth.verify_service_auth scheme (stated endpoint name challenge key) signature;
}

or_false-eq-true : (m : Result EncodingError Bool) → or_false m ≡ true → m ≡ ok true
or_false-eq-true (ok b) h = ap ok h
or_false-eq-true (err e) h = absurd (ground arith)

chain_answer-eq-ok :
    (m : Result Stop VerifiedChain) (s : Subject)
    → chain_answer m ≡ ok s
    → (v : VerifiedChain) × (m ≡ ok v) × (s ≡ record { key = v.subject; not_after = v.not_after })
unfolding chain_answer
chain_answer-eq-ok (ok v) s h = (v, refl, sym (ok_inj h))
chain_answer-eq-ok (err (refused VerifyFailure.expired m)) s h = absurd (ground arith)
chain_answer-eq-ok (err (refused VerifyFailure.revoked m)) s h = absurd (ground arith)
chain_answer-eq-ok (err e) s h = absurd (ground arith)

-- The bytes of a proof are signed by the node key.
pub record IsProved (scheme : Signatures) (s : ServiceAuthStatement) (signature : List ℕ)
    (key : List ℕ) : Type 0 where
  pub bytes : List ℕ
  pub decoded : List ℕ
  pub stated_bytes : encode_statement s ≡ ok bytes
  pub signature_read : decode_base64_strict signature 64 ≡ ok decoded
  pub signed : scheme.verify bytes decoded key ≡ true

raw_key-eq : (key read : List ℕ) → parse_public_key (raw key) ≡ ok read → read ≡ key
unfolding parse_public_key
raw_key-eq key read h = let (size, rest) = require-eq-ok (length key == 32) _ h in sym (ok_inj rest)

verify_service_auth-IsProved :
    (scheme : Signatures) (endpoint name challenge key signature : List ℕ)
    → ServiceAuth.verify_service_auth scheme (stated endpoint name challenge key) signature ≡ true
    → IsProved scheme (stated endpoint name challenge key) signature key
unfolding ServiceAuth.verify_service_auth
verify_service_auth-IsProved scheme endpoint name challenge key signature h =
    let s = stated endpoint name challenge key in
    let h1 = or_false-eq-true _ h in
    let (bytes, bytes_ok, h2) = bind-eq-ok (encode_statement s) h1 in
    let (decoded, decoded_ok, h3) = bind-eq-ok (decode_base64_strict signature 64) h2 in
    let (read, read_ok, h4) = bind-eq-ok (parse_public_key (raw key)) h3 in
    record {
      bytes = bytes;
      decoded = decoded;
      stated_bytes = bytes_ok;
      signature_read = decoded_ok;
      signed = ap (scheme.verify bytes decoded) (sym (raw_key-eq key read read_ok)) ∙ ok_inj h4;
    }

module _ (scheme : Signatures) (endpoint : List ℕ)
    (decode : List ℕ → Option (ServiceAuth GrantInput)) where
  -- What a node has shown when its claim on a name is weighed against the name's incumbent.
  pub record IsAuthorized (env : Environment) (conn : ℕ) (proof : ServiceAuth GrantInput)
      (key : Option (List ℕ)) (r r' : Relay) : Type 0 where
    pub root : List ℕ
    pub v : VerifiedChain
    pub challenge : List ℕ
    pub root_known : key ≡ some root
    pub verified :
        IsVerified scheme proof.chain (relay_options root (env.now / 1000)) service_node v
    pub for_name : v.scope ≡ some proof.name
    pub challenged : (r.connection conn).challenge ≡ some challenge
    pub proved :
        IsProved scheme (stated endpoint proof.name challenge v.subject) proof.signature v.subject
    pub contends : r' ≡ contend env conn proof.name v.subject root v.not_after r

  is_proof-IsProved :
      (challenge : Option (List ℕ)) (proof : ServiceAuth GrantInput) (key : List ℕ)
      → is_proof (crypto_trust scheme endpoint decode) challenge proof key ≡ true
      → (c : List ℕ) × (challenge ≡ some c)
        × IsProved scheme (stated endpoint proof.name c key) proof.signature key
  unfolding is_proof crypto_trust
  is_proof-IsProved none proof key h = absurd (ground arith)
  is_proof-IsProved (some c) proof key h =
      (c, refl, verify_service_auth-IsProved scheme endpoint proof.name c key proof.signature h)

  abbrev trust : Trust GrantInput
  trust = crypto_trust scheme endpoint decode

  weighed :
      (env : Environment) (conn : ℕ) (proof : ServiceAuth GrantInput) (root : List ℕ) (r : Relay)
      (s : Subject)
      → (r.connection conn).closed ≡ false
      → trust.verify_chain proof.chain root (env.now / 1000) proof.name ≡ ok s
      → is_proof trust (r.connection conn).challenge proof s.key ≡ true
      → IsAuthorized env conn proof
          (some root)
          r
          (verify_service trust env conn proof (some root) r)
  unfolding crypto_trust verify_service
  weighed env conn proof root r s live chain_ok proof_ok =
      let (v, v_ok, same) =
        chain_answer-eq-ok
          (Verifying.verify_chain scheme proof.chain (relay_options root (env.now / 1000))
            service_node (some proof.name))
          s chain_ok in
      let (verified, met, scoped) =
        verify_chain-IsVerified scheme proof.chain (relay_options root (env.now / 1000))
          service_node (some proof.name) v v_ok in
      let proof_v : is_proof trust (r.connection conn).challenge proof v.subject ≡ true =
        ap (λ x. is_proof trust (r.connection conn).challenge proof x.key) (sym same) ∙ proof_ok in
      let (challenge, challenged, proved) =
        is_proof-IsProved (r.connection conn).challenge proof v.subject proof_v in
      record {
        root = root;
        v = v;
        challenge = challenge;
        root_known = refl;
        verified = verified;
        for_name = met proof.name refl;
        challenged = challenged;
        proved = proved;
        contends =
            rw (live, chain_ok)
              (rw proof_ok (ap (λ x. contend env conn proof.name x.key root x.not_after r) same));
      }

  -- A service proof leaves the relay as it is on a closed connection, is refused, or comes from a node
  -- to which the domain key's chain gives exactly this name and which signed this connection's
  -- challenge for this relay's endpoint.
  pub verify_service-IsAuthorized :
      (env : Environment) (conn : ℕ) (proof : ServiceAuth GrantInput) (key : Option (List ℕ))
      (r : Relay)
      → ((r.connection conn).closed ≡ true) × (verify_service trust env conn proof key r ≡ r)
        ⊎ ((code : ℕ) × (verify_service trust env conn proof key r ≡ refuse conn code r))
        ⊎ IsAuthorized env conn proof key r (verify_service trust env conn proof key r)
  unfolding verify_service
  verify_service-IsAuthorized env conn proof none r = elim (Bool-cases (r.connection conn).closed) [
    | inl c ↦ inl (c, rw c refl)
    | inr c ↦ inr (inl (auth_failed, rw c refl))
  ]
  verify_service-IsAuthorized env conn proof (some root) r =
      elim (Bool-cases (r.connection conn).closed) [
        | inl c ↦ inl (c, rw c refl)
        | inr c ↦
            elim (Result-cases (trust.verify_chain proof.chain root (env.now / 1000) proof.name)) [
              | inr (e, f) ↦ inr (inl (chain_code e, rw (c, f) refl))
              | inl (s, f) ↦
                  elim (Bool-cases (is_proof trust (r.connection conn).challenge proof s.key)) [
                    | inl p ↦ inr (inr (weighed env conn proof root r s c f p))
                    | inr p ↦ inr (inl (auth_failed, rw (c, f) (rw p refl)))
                  ]
            ]
      ]
