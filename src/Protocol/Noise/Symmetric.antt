-- ===== src/Protocol/Noise/Symmetric.antt =====
-- packages/protocol/src/noise.ts: the state that both ends of a handshake mix into.
use Prim.Native.String.{String}
use tnp.Prelude.{
  ℕ, ◌+◌, ◌-◌, ◌*◌, ◌≡◌, refl, leb, if◌then◌else◌, Option, none, some, List, [], ◌++◌, length, take,
  drop, replicate, Result, ok, err,
}
use tnp.Prelude.Bytes.{wipe}
use tnp.Prelude.Utf8.{text_encode}
use tnp.Crypto.Primitives.{Primitives, KeyAgreementError, x25519}
use tnp.Protocol.Noise.{
  Aead, IsAead, encrypt_with_ad, decrypt_with_ad, decrypt-encrypt_with_ad, length-encrypt_with_ad,
}

pub data NoiseErrorKind : Type 0 where
  decrypt dh state : NoiseErrorKind

pub record NoiseError : Type 0 where
  pub message : String
  pub kind : NoiseErrorKind

abbrev pub noise_error : String → NoiseErrorKind → NoiseError
noise_error m kind = record { message = m; kind = kind }

abbrev pub hash_length : ℕ
hash_length = 32

abbrev pub dh_length : ℕ
dh_length = 32

pub record SymmetricState : Type 0 where
  pub ck : List ℕ
  pub h : List ℕ
  pub k : Option (List ℕ)
  pub n : ℕ

-- `catch (err) { throw new NoiseError(…, 'dh') }`
unfoldable pub or_noise_error : Result KeyAgreementError (List ℕ) → Result NoiseError (List ℕ)
or_noise_error (ok shared) = ok shared
or_noise_error (err e) = err (noise_error e.message dh)

module _ (c : Primitives) where
  -- HKDF with two outputs.
  unfoldable pub hkdf2 : (ck ikm : List ℕ) → List ℕ × List ℕ
  hkdf2 ck ikm =
      let out = c.hkdf ikm ck [] (2 * hash_length) in (take hash_length out, drop hash_length out)

  unfoldable pub initial : (protocol_name : List ℕ) → SymmetricState
  initial protocol_name =
      let name = text_encode protocol_name in
      let h =
        if leb (length name) hash_length
        then name ++ replicate (hash_length - length name) 0
        else c.sha256 name in
      record { ck = h; h = h; k = none; n = 0 }

  unfoldable pub mix_hash : List ℕ → SymmetricState → SymmetricState
  mix_hash data_bytes s = record s { h = c.sha256 (s.h ++ data_bytes) }

  unfoldable pub mix_key : List ℕ → SymmetricState → SymmetricState
  mix_key ikm s = let (ck, temp_k) = hkdf2 s.ck ikm in record s { ck = ck; k = some temp_k; n = 0 }

  -- The keys, and the state whose keys are erased.
  unfoldable pub split_keys : SymmetricState → (List ℕ × List ℕ) × SymmetricState
  split_keys s = (hkdf2 s.ck [], record s { ck = wipe s.ck; k = none })

  -- `dh`
  unfoldable pub exchange_keys : (secret public_key : List ℕ) → Result NoiseError (List ℕ)
  exchange_keys secret public_key = or_noise_error (x25519 c secret public_key)

  -- What `aeadOpen` has opened.
  unfoldable pub after_opening :
      SymmetricState
      → (ciphertext : List ℕ) → Option (List ℕ)
      → Result NoiseError (List ℕ) × SymmetricState
  after_opening s ciphertext none =
      (err (noise_error "handshake payload failed authentication" decrypt), s)
  after_opening s ciphertext (some plaintext) =
      (ok plaintext, mix_hash ciphertext (record s { n = s.n + 1 }))

  module _ (a : Aead) where
    unfoldable pub encrypt_under :
        Option (List ℕ) → SymmetricState → List ℕ → List ℕ × SymmetricState
    encrypt_under none s plaintext = (plaintext, mix_hash plaintext s)
    encrypt_under (some k) s plaintext =
        let ciphertext = encrypt_with_ad a k s.n s.h plaintext in
        (ciphertext, mix_hash ciphertext (record s { n = s.n + 1 }))

    unfoldable pub encrypt_and_hash : SymmetricState → List ℕ → List ℕ × SymmetricState
    encrypt_and_hash s plaintext = encrypt_under s.k s plaintext

    unfoldable pub decrypt_under :
        Option (List ℕ) → SymmetricState → List ℕ → Result NoiseError (List ℕ) × SymmetricState
    decrypt_under none s ciphertext = (ok ciphertext, mix_hash ciphertext s)
    decrypt_under (some k) s ciphertext =
        after_opening s ciphertext (decrypt_with_ad a k s.n s.h ciphertext)

    unfoldable pub decrypt_and_hash :
        SymmetricState → List ℕ → Result NoiseError (List ℕ) × SymmetricState
    decrypt_and_hash s ciphertext = decrypt_under s.k s ciphertext

    decrypt-encrypt_under :
        IsAead a
        → (k : Option (List ℕ)) (s : SymmetricState) (p : List ℕ)
        → decrypt_under k s (encrypt_under k s p).0 ≡ (ok p, (encrypt_under k s p).1)
    unfolding encrypt_under decrypt_under after_opening
    decrypt-encrypt_under law none s p = refl
    decrypt-encrypt_under law (some k) s p =
        rw (after_opening, decrypt-encrypt_with_ad a law k s.n s.h p) refl

    -- In the same state, one end reads what the other wrote, and both are in one state again.
    pub decrypt-encrypt_and_hash :
        IsAead a
        → (s : SymmetricState) (p : List ℕ)
        → decrypt_and_hash s (encrypt_and_hash s p).0 ≡ (ok p, (encrypt_and_hash s p).1)
    unfolding encrypt_and_hash decrypt_and_hash
    decrypt-encrypt_and_hash law s p = decrypt-encrypt_under law s.k s p

    pub length-encrypt_and_hash :
        IsAead a
        → (ikm : List ℕ) (s : SymmetricState) (p : List ℕ)
        → length (encrypt_and_hash (mix_key ikm s) p).0 ≡ length p + 16
    unfolding encrypt_and_hash encrypt_under mix_key
    length-encrypt_and_hash law ikm s p = length-encrypt_with_ad a law _ _ _ p
