-- ===== src/Protocol/Noise/Pattern.antt =====
-- packages/protocol/src/noise.ts: the two ends of the NK pattern. A method that throws has still
-- moved its object on, and so returns it beside the error.
use tnp.Prelude.{
  ℕ, Bool, true, false, not, ltb, if◌then◌else◌, Option, none, some, List, ◌++◌, length, take, drop,
  Result, ok, err,
}
use tnp.Prelude.Bytes.{wipe}
use tnp.Prelude.Texts.{code_points}
use tnp.Crypto.Primitives.{Primitives, X25519KeyPair}
use tnp.Protocol.Noise.{Aead}
use tnp.Protocol.Noise.Symmetric.{
  NoiseError, noise_error, decrypt, state, dh_length, SymmetricState, initial, mix_hash, mix_key,
  split_keys, exchange_keys, encrypt_and_hash, decrypt_and_hash,
}

abbrev pub noise_protocol_name : List ℕ
noise_protocol_name = code_points "Noise_NK_25519_ChaChaPoly_SHA256"

pub record NoiseSplit : Type 0 where
  pub send_key : List ℕ
  pub receive_key : List ℕ
  pub handshake_hash : List ℕ

pub data InitiatorStep : Type 0 where
  write1 read2 initiator_done : InitiatorStep

pub data ResponderStep : Type 0 where
  read1 write2 responder_done : ResponderStep

pub record NkInitiator : Type 0 where
  pub ss : SymmetricState
  pub rs : List ℕ
  pub e : X25519KeyPair
  pub step : InitiatorStep

pub record NkResponder : Type 0 where
  pub ss : SymmetricState
  pub s : X25519KeyPair
  pub e : X25519KeyPair
  pub step : ResponderStep
  pub re : Option (List ℕ)

abbrev is_write1 : InitiatorStep → Bool
is_write1 write1 = true
is_write1 s = false

abbrev is_read2 : InitiatorStep → Bool
is_read2 read2 = true
is_read2 s = false

abbrev is_read1 : ResponderStep → Bool
is_read1 read1 = true
is_read1 s = false

-- `step === 'write2' && this.re`
abbrev peer_of : ResponderStep → Option (List ℕ) → Option (List ℕ)
peer_of write2 re = re
peer_of s re = none

abbrev pub wiped : X25519KeyPair → X25519KeyPair
wiped e = record e { secret_key = wipe e.secret_key }

module _ (c : Primitives) where
  unfoldable pub new_initiator : (prologue responder_static : List ℕ) → X25519KeyPair → NkInitiator
  new_initiator prologue responder_static e = record {
    ss = mix_hash c responder_static (mix_hash c prologue (initial c noise_protocol_name));
    rs = responder_static;
    e = e;
    step = write1;
  }

  unfoldable pub new_responder : (prologue : List ℕ) → (static_key e : X25519KeyPair) → NkResponder
  new_responder prologue static_key e = record {
    ss = mix_hash c static_key.public_key (mix_hash c prologue (initial c noise_protocol_name));
    s = static_key;
    e = e;
    step = read1;
    re = none;
  }

  module _ (a : Aead) where
    -- After the step was taken: `-> e, es, payload`.
    unfoldable pub send_first :
        NkInitiator
        → (payload : List ℕ) → Result NoiseError (List ℕ)
        → Result NoiseError (List ℕ) × NkInitiator
    send_first i payload (err e) = (err e, record i { ss = mix_hash c i.e.public_key i.ss })
    send_first i payload (ok shared) =
        let mixed = mix_key c shared (mix_hash c i.e.public_key i.ss) in
        let (ciphertext, ss) = encrypt_and_hash c a mixed payload in
        (ok (i.e.public_key ++ ciphertext), record i { ss = ss })

    unfoldable pub write_message1 :
        NkInitiator → (payload : List ℕ) → Result NoiseError (List ℕ) × NkInitiator
    write_message1 i payload =
        if is_write1 i.step
        then send_first (record i { step = read2 }) payload (exchange_keys c i.e.secret_key i.rs)
        else (err (noise_error "message 1 already written" state), i)

    -- What both ends do with the other's ephemeral key and payload.
    unfoldable pub receive_mixed :
        SymmetricState
        → (ciphertext : List ℕ) → Result NoiseError (List ℕ)
        → Result NoiseError (List ℕ) × SymmetricState
    receive_mixed s ciphertext (err e) = (err e, s)
    receive_mixed s ciphertext (ok shared) = decrypt_and_hash c a (mix_key c shared s) ciphertext

    unfoldable pub receive_payload :
        SymmetricState → (secret message : List ℕ) → Result NoiseError (List ℕ) × SymmetricState
    receive_payload s secret message =
        let re = take dh_length message in
        receive_mixed (mix_hash c re s) (drop dh_length message) (exchange_keys c secret re)

    -- `split` with the handshake hash.
    unfoldable pub finish_initiator :
        NkInitiator
        → Result NoiseError (List ℕ) × SymmetricState
        → Result NoiseError (List ℕ × NoiseSplit) × NkInitiator
    finish_initiator i (err e, ss) = (err e, record i { ss = ss })
    finish_initiator i (ok payload, ss) =
        let ((k1, k2), erased) = split_keys c ss in
        (
          ok (payload, record { send_key = k1; receive_key = k2; handshake_hash = ss.h }),
          record i { ss = erased },
        )

    unfoldable pub read_message2 :
        NkInitiator → (message : List ℕ) → Result NoiseError (List ℕ × NoiseSplit) × NkInitiator
    read_message2 i message =
        if not (is_read2 i.step)
        then (err (noise_error "not expecting message 2" state), i)
        else let after = record i { step = initiator_done; e = wiped i.e } in
          if ltb (length message) dh_length
          then (err (noise_error "message 2 too short" decrypt), after)
          else finish_initiator after (receive_payload i.ss i.e.secret_key message)

    -- `catch`: an ephemeral key of a failed handshake is dead.
    unfoldable pub finish_reading :
        NkResponder
        → (message : List ℕ) → Result NoiseError (List ℕ) × SymmetricState
        → Result NoiseError (List ℕ) × NkResponder
    finish_reading r message (err e, ss) = (err e, record r { ss = ss; e = wiped r.e })
    finish_reading r message (ok payload, ss) =
        (ok payload, record r { ss = ss; re = some (take dh_length message) })

    unfoldable pub read_message1 :
        NkResponder → (message : List ℕ) → Result NoiseError (List ℕ) × NkResponder
    read_message1 r message =
        if not (is_read1 r.step)
        then (err (noise_error "message 1 already read" state), r)
        else let after = record r { step = write2 } in
          if ltb (length message) dh_length
          then (err (noise_error "message 1 too short" decrypt), record after { e = wiped r.e })
          else finish_reading after message (receive_payload r.ss r.s.secret_key message)

    -- After the step was taken: `<- e, ee, payload`.
    unfoldable pub send_second :
        NkResponder
        → (payload : List ℕ) → Result NoiseError (List ℕ)
        → Result NoiseError (List ℕ × NoiseSplit) × NkResponder
    send_second r payload (err e) =
        (err e, record r { ss = mix_hash c r.e.public_key r.ss; e = wiped r.e })
    send_second r payload (ok shared) =
        let mixed = mix_key c shared (mix_hash c r.e.public_key r.ss) in
        let (ciphertext, ss) = encrypt_and_hash c a mixed payload in
        let ((k1, k2), erased) = split_keys c ss in
        (
          ok (
            r.e.public_key ++ ciphertext,
            record { send_key = k2; receive_key = k1; handshake_hash = ss.h },
          ),
          record r { ss = erased; e = wiped r.e },
        )

    unfoldable pub write_message2 :
        NkResponder → (payload : List ℕ) → Result NoiseError (List ℕ × NoiseSplit) × NkResponder
    write_message2 r payload = elim (peer_of r.step r.re) [
      | none ↦ (err (noise_error "not ready to write message 2" state), r)
      | some re ↦
          send_second (record r { step = responder_done }) payload
            (exchange_keys c r.e.secret_key re)
    ]
