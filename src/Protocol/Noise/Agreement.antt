-- ===== src/Protocol/Noise/Agreement.antt =====
-- The two ends of an honest handshake: each reads what the other wrote, and they end with the same
-- keys and the same hash.
use tnp.Prelude.{
  ℕ, ◌+◌, ◌≡◌, refl, sym, ap, ◌∙◌, false, ltb, some, List, [], ◌++◌, length, length-append,
  take-length_append, drop-length_append, ok, arith,
}
use tnp.Crypto.Primitives.{
  Primitives, ArePrimitives, X25519KeyPair, x25519, assert_canonical_x25519, is_all_zero,
}
use tnp.Protocol.Noise.{Aead, IsAead}
use tnp.Protocol.Noise.Symmetric.{
  SymmetricState, mix_hash, mix_key, split_keys, exchange_keys, encrypt_and_hash, or_noise_error,
  decrypt-encrypt_and_hash, length-encrypt_and_hash, hkdf2,
}
use tnp.Protocol.Noise.Pattern.{
  NkInitiator, NkResponder, read2, write2, initiator_done, responder_done, wiped, new_initiator,
  new_responder, send_first, write_message1, receive_payload, receive_mixed, finish_initiator,
  read_message2, finish_reading, read_message1, send_second, write_message2,
}

-- A key pair as the generator makes it.
pub record IsKeyPair (c : Primitives) (e : X25519KeyPair) : Type 0 where
  pub derived : e.public_key ≡ c.base e.secret_key
  pub secret_size : length e.secret_key ≡ 32
  pub canonical : assert_canonical_x25519 e.public_key ≡ ok tt

-- An honest run of the pattern: the messages, both ends' keys, crosswise, and the hash.
pub record Run (c : Primitives) (a : Aead) (prologue p1 p2 : List ℕ) (st e f : X25519KeyPair)
    : Type 0 where
  pub message1 : List ℕ
  pub message2 : List ℕ
  pub key1 : List ℕ
  pub key2 : List ℕ
  pub hash : List ℕ
  pub initiator1 : NkInitiator
  pub initiator2 : NkInitiator
  pub responder1 : NkResponder
  pub responder2 : NkResponder
  pub size1 : length message1 ≡ 48 + length p1
  pub size2 : length message2 ≡ 48 + length p2
  pub first_written :
      write_message1 c a (new_initiator c prologue st.public_key e) p1 ≡ (ok message1, initiator1)
  pub first_read : read_message1 c a (new_responder c prologue st f) message1 ≡ (ok p1, responder1)
  pub second_written : write_message2 c a responder1 p2 ≡ (
    ok (message2, record { send_key = key2; receive_key = key1; handshake_hash = hash }),
    responder2,
  )
  pub second_read :
      read_message2 c a initiator1 message2
      ≡ (ok (p2, record { send_key = key1; receive_key = key2; handshake_hash = hash }), initiator2)

module _ (c : Primitives) (laws : ArePrimitives c) where
  x25519-ok :
      (secret peer : List ℕ)
      → length secret ≡ 32
      → assert_canonical_x25519 peer ≡ ok tt
      → is_all_zero (c.scalar_mult secret peer) ≡ false
      → x25519 c secret peer ≡ ok (c.scalar_mult secret peer)
  unfolding x25519
  x25519-ok secret peer size canonical nonzero = rw (size, canonical, nonzero) refl

  -- Both sides compute the same secret, unless it is the point that is refused.
  exchange-agrees :
      (e f : X25519KeyPair)
      → IsKeyPair c e
      → IsKeyPair c f
      → is_all_zero (c.scalar_mult e.secret_key f.public_key) ≡ false
      → (exchange_keys c e.secret_key f.public_key ≡ ok (c.scalar_mult e.secret_key f.public_key))
        × (exchange_keys c f.secret_key e.public_key ≡ ok (c.scalar_mult e.secret_key f.public_key))
  unfolding exchange_keys or_noise_error
  exchange-agrees e f he hf nonzero =
      let same : c.scalar_mult f.secret_key e.public_key ≡ c.scalar_mult e.secret_key f.public_key =
        ap (c.scalar_mult f.secret_key) he.derived
        ∙ laws.exchange f.secret_key e.secret_key hf.secret_size he.secret_size
        ∙ ap (c.scalar_mult e.secret_key) (sym hf.derived) in
      (
        ap or_noise_error (x25519-ok e.secret_key f.public_key he.secret_size hf.canonical nonzero),
        ap or_noise_error (
              x25519-ok f.secret_key e.public_key hf.secret_size he.canonical
                (ap is_all_zero same ∙ nonzero))
            ∙ ap ok same,
      )

  public_size : (e : X25519KeyPair) → IsKeyPair c e → length e.public_key ≡ 32
  public_size e h = ap length h.derived ∙ laws.length-base e.secret_key h.secret_size

  module _ (a : Aead) (law : IsAead a) where
    -- What was written under a key that both have is read, and leaves both in one state.
    receive_payload-sent :
        (s : SymmetricState) (secret public_key shared p : List ℕ)
        → length public_key ≡ 32
        → exchange_keys c secret public_key ≡ ok shared
        → receive_payload c a s secret
            (public_key ++ (encrypt_and_hash c a (mix_key c shared (mix_hash c public_key s)) p).0)
          ≡ (ok p, (encrypt_and_hash c a (mix_key c shared (mix_hash c public_key s)) p).1)
    unfolding receive_payload
    receive_payload-sent s secret public_key shared p size e =
        let mixed = mix_key c shared (mix_hash c public_key s) in
        let sent = (encrypt_and_hash c a mixed p).0 in
        rw
          (
            take-length_append 32 public_key sent size,
            drop-length_append 32 public_key sent size,
            e,
          )
          (unfold receive_mixed in decrypt-encrypt_and_hash c a law mixed p)

    pub honest-Run :
        (prologue p1 p2 : List ℕ) (st e f : X25519KeyPair)
        → IsKeyPair c st
        → IsKeyPair c e
        → IsKeyPair c f
        → is_all_zero (c.scalar_mult e.secret_key st.public_key) ≡ false
        → is_all_zero (c.scalar_mult e.secret_key f.public_key) ≡ false
        → Run c a prologue p1 p2 st e f
    unfolding write_message1 send_first read_message1 write_message2 send_second read_message2
        new_initiator new_responder finish_reading finish_initiator split_keys
    honest-Run prologue p1 p2 st e f hst he hf nz1 nz2 =
        let start = (new_initiator c prologue st.public_key e).ss in
        let (es, es') = exchange-agrees e st he hst nz1 in
        let (ee, ee') = exchange-agrees e f he hf nz2 in
        let mixed1 =
          mix_key c (c.scalar_mult e.secret_key st.public_key) (mix_hash c e.public_key start) in
        let sent1 = (encrypt_and_hash c a mixed1 p1).0 in
        let ss1 = (encrypt_and_hash c a mixed1 p1).1 in
        let mixed2 =
          mix_key c (c.scalar_mult e.secret_key f.public_key) (mix_hash c f.public_key ss1) in
        let sent2 = (encrypt_and_hash c a mixed2 p2).0 in
        let ss2 = (encrypt_and_hash c a mixed2 p2).1 in
        let long1 : length (e.public_key ++ sent1) ≡ 48 + length p1 = omega (
          arith,
          length-append e.public_key sent1,
          public_size e he,
          length-encrypt_and_hash c a law (c.scalar_mult e.secret_key st.public_key)
              (mix_hash c e.public_key start) p1,
        ) in
        let long2 : length (f.public_key ++ sent2) ≡ 48 + length p2 = omega (
          arith,
          length-append f.public_key sent2,
          public_size f hf,
          length-encrypt_and_hash c a law (c.scalar_mult e.secret_key f.public_key)
              (mix_hash c f.public_key ss1) p2,
        ) in
        let fits1 : ltb (length (e.public_key ++ sent1)) 32 ≡ false = ground arith in
        let fits2 : ltb (length (f.public_key ++ sent2)) 32 ≡ false = ground arith in
        let received1 =
          receive_payload-sent start st.secret_key e.public_key
            (c.scalar_mult e.secret_key st.public_key) p1 (public_size e he) es' in
        let received2 =
          receive_payload-sent ss1 e.secret_key f.public_key
            (c.scalar_mult e.secret_key f.public_key) p2 (public_size f hf) ee in
        let initiator1 : NkInitiator = record (new_initiator c prologue st.public_key e) {
          ss = ss1;
          step = read2;
        } in
        let responder1 : NkResponder = record (new_responder c prologue st f) {
          ss = ss1;
          step = write2;
          re = some e.public_key;
        } in
        record {
          message1 = e.public_key ++ sent1;
          message2 = f.public_key ++ sent2;
          key1 = (hkdf2 c ss2.ck []).0;
          key2 = (hkdf2 c ss2.ck []).1;
          hash = ss2.h;
          initiator1 = initiator1;
          initiator2 = record initiator1 {
            ss = (split_keys c ss2).1;
            step = initiator_done;
            e = wiped e;
          };
          responder1 = responder1;
          responder2 = record responder1 {
            ss = (split_keys c ss2).1;
            step = responder_done;
            e = wiped f;
          };
          size1 = long1;
          size2 = long2;
          first_written = rw es refl;
          first_read =
              rw (fits1, received1, take-length_append 32 e.public_key sent1 (public_size e he))
                refl;
          second_written = rw ee' refl;
          second_read = rw (fits2, received2) refl;
        }
