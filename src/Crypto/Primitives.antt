-- ===== src/Crypto/Primitives.antt =====
-- packages/crypto/src/primitives.ts. The curve, the hash and the key derivation are third-party
-- packages, and parameters.
use Prim.Native.String.{String}
use tnp.Prelude.{
  ℕ, ◌+◌, ◌-◌, ◌*◌, ◌^◌, ◌≡◌, ◌==◌, ◌&&◌, Bool, not, ltb, List, [], ◌∷◌, length, get_or, all,
  Result, ok, ◌>>◌, require,
}
use tnp.Prelude.Texts.{code_points}
use tnp.Prelude.Utf8.{text_encode}

-- `nacl.scalarMult`, `nacl.scalarMult.base`, SHA-256, and HKDF-SHA256 of the input key, the salt, the
-- info and a length.
pub record Primitives : Type 0 where
  pub scalar_mult : (secret public_key : List ℕ) → List ℕ
  pub base : (secret : List ℕ) → List ℕ
  pub sha256 : List ℕ → List ℕ
  pub hkdf : (ikm salt info : List ℕ) → ℕ → List ℕ

-- What the standards say of them: sizes, and that both sides of an exchange compute the same point.
pub record ArePrimitives (c : Primitives) : Type 0 where
  pub length-base : (s : List ℕ) → length s ≡ 32 → length (c.base s) ≡ 32
  pub length-sha256 : (d : List ℕ) → length (c.sha256 d) ≡ 32
  pub length-hkdf : (ikm salt info : List ℕ) (n : ℕ) → length (c.hkdf ikm salt info n) ≡ n
  pub exchange :
      (s t : List ℕ)
      → length s ≡ 32
      → length t ≡ 32
      → c.scalar_mult s (c.base t) ≡ c.scalar_mult t (c.base s)

pub record KeyAgreementError : Type 0 where
  pub message : String

abbrev key_agreement_error : String → KeyAgreementError
key_agreement_error m = record { message = m }

abbrev pub x25519_key_length : ℕ
x25519_key_length = 32

pub record X25519KeyPair : Type 0 where
  pub public_key : List ℕ
  pub secret_key : List ℕ

unfoldable pub little_endian : List ℕ → ℕ
little_endian [] = 0
little_endian (b ∷ bs) = little_endian bs * 256 + b

unfoldable pub assert_canonical_x25519 : List ℕ → Result KeyAgreementError (Unit {0})
assert_canonical_x25519 key = do
  require (length key == x25519_key_length)
      (key_agreement_error "X25519 public key must be 32 bytes")
  require (ltb (get_or key 31 0) 0x80 && ltb (little_endian key) (2 ^ 255 - 19))
      (key_agreement_error "X25519 public key is not canonically encoded")

unfoldable pub is_all_zero : List ℕ → Bool
is_all_zero bytes = all (λ b. b == 0) bytes

module _ (c : Primitives) where
  unfoldable pub x25519_key_pair_from_secret : List ℕ → Result KeyAgreementError X25519KeyPair
  x25519_key_pair_from_secret secret = do
    require (length secret == x25519_key_length)
        (key_agreement_error "X25519 secret key must be 32 bytes")
    ok (record { public_key = c.base secret; secret_key = secret })

  unfoldable pub low_order_probe : List ℕ
  low_order_probe = c.sha256 (text_encode (code_points "tnp-x25519-low-order-probe-v1"))

  unfoldable pub assert_valid_x25519_public_key : List ℕ → Result KeyAgreementError (Unit {0})
  assert_valid_x25519_public_key key = do
    assert_canonical_x25519 key
    require (not (is_all_zero (c.scalar_mult low_order_probe key)))
        (key_agreement_error "X25519 public key has small order")

  unfoldable pub x25519 : (secret peer : List ℕ) → Result KeyAgreementError (List ℕ)
  x25519 secret peer = do
    require (length secret == x25519_key_length)
        (key_agreement_error "X25519 secret key must be 32 bytes")
    assert_canonical_x25519 peer
    let shared = c.scalar_mult secret peer
    require (not (is_all_zero shared)) (key_agreement_error "X25519 produced the all-zero output")
    ok shared
