-- ===== src/Protocol/Session/Handshake.antt =====
-- packages/protocol/src/session.ts: ClientHandshake and ServerHandshake, single use each. A method
-- that throws returns its object beside the error.
pub mod Agreement
pub mod Binding
mod Runs
use Prim.Native.String.{String}
use tnp.Prelude.{
  ℕ, ◌==◌, Bool, true, false, not, ◌&&◌, leb, if◌then◌else◌, Option, none, some, List, [], ◌∷◌,
  length, Result, ok, err, ◌>>=◌, ◌>>◌, require, Number, default_to, RangeError,
}
use tnp.Prelude.Counts.{ℤ, pos, negsuc}
use tnp.Prelude.Texts.{code_points, same_text}
use tnp.Crypto.Encoding.{EncodingError, new_writer, write_string, fixed, finish, max_safe_integer}
use tnp.Crypto.Primitives.{
  Primitives, KeyAgreementError, X25519KeyPair, x25519_key_pair_from_secret,
  assert_valid_x25519_public_key,
}
use tnp.Crypto.KeyAgreement.{Role, service_node, role_text, VerifiedKey}
use tnp.Protocol.ErrorCode.{protocol_violation, auth_failed, auth_expired}
use tnp.Protocol.Constants.{protocol_version, handshake_message_size}
use tnp.Protocol.Frame.{range_error}
use tnp.Protocol.Noise.{Aead}
use tnp.Protocol.Noise.Symmetric.{NoiseError, NoiseErrorKind}
use tnp.Protocol.Noise.Pattern.{
  NkInitiator, NkResponder, NoiseSplit, new_initiator, new_responder, write_message1, read_message2,
  read_message1, write_message2,
}
use tnp.Protocol.Session.{
  SessionError, session_error, ResolvedLimits, resolve_limits, Session, create,
}

-- What the constructors and the methods throw.
pub data Refusal : Type 0 where
  session : SessionError → Refusal
  range : RangeError → Refusal
  encoding : EncodingError → Refusal
  key : KeyAgreementError → Refusal
  noise : NoiseError → Refusal

abbrev pub or_range {ℓ} : {A : Type ℓ} → Result RangeError A → Result Refusal A
or_range (ok a) = ok a
or_range (err e) = err (range e)

abbrev pub or_encoding {ℓ} : {A : Type ℓ} → Result EncodingError A → Result Refusal A
or_encoding (ok a) = ok a
or_encoding (err e) = err (encoding e)

abbrev pub or_key {ℓ} : {A : Type ℓ} → Result KeyAgreementError A → Result Refusal A
or_key (ok a) = ok a
or_key (err e) = err (key e)

abbrev pub session_context : List ℕ
session_context = code_points "tnp-session-v1"

unfoldable pub session_prologue : Role → List ℕ → Result EncodingError (List ℕ)
session_prologue role name = do
  versioned ← fixed (write_string new_writer session_context) (protocol_version ∷ []) 1
  ok (finish (write_string (write_string versioned (role_text role)) name))

-- `toSessionError` of what the Noise methods throw.
unfoldable pub to_session_error : NoiseError → (fallback : String) → SessionError
to_session_error e fallback = elim e.kind [
  | NoiseErrorKind.dh ↦ session_error "handshake refused" protocol_violation
  | NoiseErrorKind.state ↦ session_error e.message protocol_violation
  | NoiseErrorKind.decrypt ↦ session_error fallback auth_failed
]

-- `options.serverKey`: a key that the verifier has returned, or an object that looks like one.
pub data ServerKey : Type 0 where
  returned : VerifiedKey → ServerKey
  look_alike : ServerKey

-- `!Number.isSafeInteger(now) || now >= notAfter`; `none` is no safe integer.
unfoldable pub is_past : Option ℤ → ℕ → Bool
is_past none not_after = true
is_past (some (negsuc n)) not_after = false
is_past (some (pos n)) not_after = leb not_after n

pub data HandshakeState : Type 0 where
  new started finished : HandshakeState

pub record ClientHandshake : Type 0 where
  pub noise : NkInitiator
  pub limits : ResolvedLimits
  pub state : HandshakeState

pub record ServerHandshake : Type 0 where
  pub noise : NkResponder
  pub limits : ResolvedLimits
  pub used : Bool

abbrev pub is_new : HandshakeState → Bool
is_new new = true
is_new s = false

abbrev pub is_started : HandshakeState → Bool
is_started started = true
is_started s = false

-- `new SessionCipher(…)`
abbrev pub session_of : NoiseSplit → ResolvedLimits → Session
session_of keys limits = create keys.send_key keys.receive_key keys.handshake_hash limits

-- `limits.maxRecordsPerKey` and `limits.keyUpdateInterval`.
pub record SessionLimits : Type 0 where
  pub max_records : Option Number
  pub interval : Option Number

module _ (c : Primitives) where
  -- `new ClientHandshake(…)`, with the ephemeral key that is generated.
  unfoldable pub client_handshake :
      ServerKey
      → (name : List ℕ) → (now : Option ℤ) → SessionLimits
      → X25519KeyPair
      → Result Refusal ClientHandshake
  client_handshake look_alike name now limits ephemeral =
      err (session (session_error "server key was not produced by verification" auth_failed))
  client_handshake (returned server) name now limits ephemeral = do
    require (same_text name server.scope)
        (session (session_error "server key is certified for another name" auth_failed))
    require (not (is_past now server.not_after))
        (session (session_error "server key certificate has expired" auth_expired))
    resolved ← or_range (resolve_limits limits.max_records limits.interval)
    prologue ← or_encoding (session_prologue server.role name)
    ok (record {
      noise = new_initiator c prologue server.public_key ephemeral;
      limits = resolved;
      state = new;
    })

  -- `new ServerHandshake(…)`
  unfoldable pub server_handshake :
      (static_key : X25519KeyPair)
      → (name : List ℕ) → Option Role
      → SessionLimits
      → X25519KeyPair
      → Result Refusal ServerHandshake
  server_handshake static_key name role limits ephemeral = do
    derived ← or_key (x25519_key_pair_from_secret c static_key.secret_key)
    require (same_text derived.public_key static_key.public_key)
        (range (range_error "staticKey.publicKey does not match staticKey.secretKey"))
    or_key (assert_valid_x25519_public_key c derived.public_key)
    resolved ← or_range (resolve_limits limits.max_records limits.interval)
    prologue ← or_encoding (session_prologue (default_to service_node role) name)
    ok (record {
      noise = new_responder c prologue derived ephemeral;
      limits = resolved;
      used = false;
    })

  module _ (a : Aead) where
    -- `start` lets a `NoiseError` through.
    unfoldable pub after_start :
        ClientHandshake
        → Result NoiseError (List ℕ) × NkInitiator
        → Result Refusal (List ℕ) × ClientHandshake
    after_start hs (ok message, i) = (ok message, record hs { noise = i })
    after_start hs (err e, i) = (err (noise e), record hs { noise = i })

    unfoldable pub start : ClientHandshake → Result Refusal (List ℕ) × ClientHandshake
    start hs =
        if is_new hs.state
        then after_start (record hs { state = started }) (write_message1 c a hs.noise [])
        else (err (session (session_error "handshake already started" protocol_violation)), hs)

    unfoldable pub after_finish :
        ClientHandshake
        → Result NoiseError (List ℕ × NoiseSplit) × NkInitiator
        → Result Refusal Session × ClientHandshake
    after_finish hs (ok (payload, keys), i) =
        (ok (session_of keys hs.limits), record hs { noise = i })
    after_finish hs (err e, i) =
        (err (session (to_session_error e "key confirmation failed")), record hs { noise = i })

    unfoldable pub finish_handshake :
        ClientHandshake → (message2 : List ℕ) → Result Refusal Session × ClientHandshake
    finish_handshake hs message2 =
        if not (is_started hs.state)
        then (
          err (session (session_error "handshake not awaiting message 2" protocol_violation)),
          hs,
        )
        else let after = record hs { state = finished } in
          if length message2 == handshake_message_size
          then after_finish after (read_message2 c a hs.noise message2)
          else (
            err (
                session
                  (session_error "handshake message 2 has the wrong size" protocol_violation)),
            after,
          )

    unfoldable pub after_reply :
        ServerHandshake
        → Result NoiseError (List ℕ × NoiseSplit) × NkResponder
        → Result Refusal (List ℕ × Session) × ServerHandshake
    after_reply hs (ok (message, keys), r) =
        (ok (message, session_of keys hs.limits), record hs { noise = r })
    after_reply hs (err e, r) = (
      err (session (to_session_error e "handshake refused: not encrypted to this key")),
      record hs { noise = r },
    )

    unfoldable pub after_reading :
        ServerHandshake
        → Result NoiseError (List ℕ) × NkResponder
        → Result Refusal (List ℕ × Session) × ServerHandshake
    after_reading hs (ok payload, r) = after_reply hs (write_message2 c a r [])
    after_reading hs (err e, r) = (
      err (session (to_session_error e "handshake refused: not encrypted to this key")),
      record hs { noise = r },
    )

    unfoldable pub respond :
        ServerHandshake → (message1 : List ℕ) → Result Refusal (List ℕ × Session) × ServerHandshake
    respond hs message1 =
        if hs.used
        then (err (session (session_error "handshake already used" protocol_violation)), hs)
        else let after = record hs { used = true } in
          if length message1 == handshake_message_size
          then after_reading after (read_message1 c a hs.noise message1)
          else (
            err (
                session
                  (session_error "handshake message 1 has the wrong size" protocol_violation)),
            after,
          )
