-- ===== src/Protocol/Noise.antt =====
-- packages/protocol/src/noise.ts: the cipher functions that the session uses. The AEAD itself is
-- ChaCha20-Poly1305 of a third-party package, and a parameter here.
pub mod Symmetric
pub mod Pattern
pub mod Agreement
use tnp.Prelude.{ℕ, ◌+◌, ◌≡◌, Option, some, List, [], ◌++◌, length, take, replicate}
use tnp.Prelude.Bytes.{u64_bytes_le}

-- `aeadSeal(key, nonce, ad, plaintext)` and `aeadOpen(key, nonce, ad, ciphertext)`.
pub record Aead : Type 0 where
  pub aead_seal : (key nonce ad plaintext : List ℕ) → List ℕ
  pub aead_open : (key nonce ad ciphertext : List ℕ) → Option (List ℕ)

-- What RFC 8439 says of the cipher: the tag takes 16 bytes, what was sealed opens to the plaintext
-- under the same key, nonce and associated data, and nothing else opens to it.
pub record IsAead (a : Aead) : Type 0 where
  pub length-seal : (k n ad p : List ℕ) → length (a.aead_seal k n ad p) ≡ length p + 16
  pub open-seal : (k n ad p : List ℕ) → a.aead_open k n ad (a.aead_seal k n ad p) ≡ some p
  pub seal-open : (k n ad c p : List ℕ) → a.aead_open k n ad c ≡ some p → a.aead_seal k n ad p ≡ c

-- 32 zero bits, then the counter.
unfoldable pub noise_nonce : ℕ → List ℕ
noise_nonce n = replicate 4 0 ++ u64_bytes_le n

abbrev pub max_nonce : ℕ
max_nonce = 0xffff_ffff_ffff_ffff

module _ (a : Aead) where
  unfoldable pub encrypt_with_ad : (k : List ℕ) (n : ℕ) (ad plaintext : List ℕ) → List ℕ
  encrypt_with_ad k n ad plaintext = a.aead_seal k (noise_nonce n) ad plaintext

  unfoldable pub decrypt_with_ad : (k : List ℕ) (n : ℕ) (ad ciphertext : List ℕ) → Option (List ℕ)
  decrypt_with_ad k n ad ciphertext = a.aead_open k (noise_nonce n) ad ciphertext

  unfoldable pub rekey : List ℕ → List ℕ
  unfolding encrypt_with_ad
  rekey k = take 32 (encrypt_with_ad k max_nonce [] (replicate 32 0))

  module _ (law : IsAead a) where
    pub length-encrypt_with_ad :
        (k : List ℕ) (n : ℕ) (ad p : List ℕ) → length (encrypt_with_ad k n ad p) ≡ length p + 16
    unfolding encrypt_with_ad
    length-encrypt_with_ad k n ad p = law.length-seal k (noise_nonce n) ad p

    pub decrypt-encrypt_with_ad :
        (k : List ℕ) (n : ℕ) (ad p : List ℕ)
        → decrypt_with_ad k n ad (encrypt_with_ad k n ad p) ≡ some p
    unfolding encrypt_with_ad decrypt_with_ad
    decrypt-encrypt_with_ad k n ad p = law.open-seal k (noise_nonce n) ad p

    pub encrypt-decrypt_with_ad :
        (k : List ℕ) (n : ℕ) (ad c p : List ℕ)
        → decrypt_with_ad k n ad c ≡ some p
        → encrypt_with_ad k n ad p ≡ c
    unfolding encrypt_with_ad decrypt_with_ad
    encrypt-decrypt_with_ad k n ad c p e = law.seal-open k (noise_nonce n) ad c p e
