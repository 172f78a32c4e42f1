-- ===== src/Crypto/ServiceAuth/Binding.antt =====
-- What a proof is bound to: equal signed bytes mean the same name, endpoint, challenge and key.
use tnp.Prelude.{
  ℕ, ◌*◌, ◌^◌, ◌≤◌, ◌<◌, ◌≡◌, ◌==◌, refl, sym, ap, ◌∙◌, leb, not, ◌&&◌, List, [], ◌∷◌, ◌++◌, length,
  length-append, All, arith, true, ok, bind-eq-ok, require-eq-ok, ok_inj,
}
use tnp.Prelude.Bytes.{u32_bytes}
use tnp.Prelude.Utf8.{text_encode, encode_character}
use tnp.Crypto.Encoding.{
  new_writer, push, bytes_prefixed, write_string, fixed, finish, concat_bytes, parse_public_key,
}
use tnp.Crypto.Encoding.Writer.{append_cut, prefixed_cut, fixed-eq-ok, text_encode_ascii}
use tnp.Crypto.Scope.{is_valid_scope}
use tnp.Crypto.Grants.Bytes.{is_valid_scope_lem}
use tnp.Crypto.ServiceAuth.{ServiceAuthStatement, service_auth_context, encode_statement, units}

encode_character-cut :
    (c d : ℕ) (r s : List ℕ)
    → c < 0x11_0000
    → d < 0x11_0000
    → encode_character c ++ r ≡ encode_character d ++ s
    → (c ≡ d) × (r ≡ s)
unfolding encode_character
encode_character-cut c d r s h k e = ground arith

abbrev pub IsPoint : ℕ → Type 0
IsPoint c = c < 0x11_0000

text_encode-injective :
    (s t : List ℕ) → All IsPoint s → All IsPoint t → text_encode s ≡ text_encode t → s ≡ t
unfolding text_encode
text_encode-injective [] [] h k e = refl
text_encode-injective [] (d ∷ t) h k e = unfold encode_character in absurd (ground arith)
text_encode-injective (c ∷ s) [] h k e = unfold encode_character in absurd (ground arith)
text_encode-injective (c ∷ s) (d ∷ t) (hc, h) (kd, k) e =
    let (same, rest) = encode_character-cut c d (text_encode s) (text_encode t) hc kd e in
    rw (same, text_encode-injective s t h k rest) refl

length-encode_character : (c : ℕ) → length (encode_character c) ≤ 4
unfolding encode_character
length-encode_character c = ground arith

length-text_encode : (s : List ℕ) → length (text_encode s) ≤ 4 * units s
unfolding text_encode units
length-text_encode [] = omega arith
length-text_encode (c ∷ s) = ground (
  arith,
  length-append (encode_character c) (text_encode s),
  length-encode_character c,
  length-text_encode s,
)

-- The layout of a statement.
statement_bytes : (s : ServiceAuthStatement) (key : List ℕ) → List ℕ
statement_bytes s key =
    let context = text_encode service_auth_context in
    let name = text_encode s.name in
    let endpoint = text_encode s.endpoint in
    u32_bytes (length context)
    ++ (context
        ++ (u32_bytes (length name)
            ++ (name
                ++ (u32_bytes (length endpoint) ++ (endpoint ++ (s.challenge ++ (key ++ [])))))))

-- A statement that is encoded is in order, and its bytes have the layout.
record IsStated (s : ServiceAuthStatement) (bytes : List ℕ) : Type 0 where
  key : List ℕ
  key_read : parse_public_key s.node_key ≡ ok key
  valid : is_valid_scope s.name ≡ true
  short : units s.endpoint ≤ 512
  challenge_size : length s.challenge ≡ 32
  key_size : length key ≡ 32
  layout : bytes ≡ statement_bytes s key

encode_statement-IsStated :
    (s : ServiceAuthStatement) (bytes : List ℕ) → encode_statement s ≡ ok bytes → IsStated s bytes
unfolding encode_statement fixed write_string bytes_prefixed push finish concat_bytes
    statement_bytes
encode_statement-IsStated s bytes e =
    let (valid, h1) = require-eq-ok (is_valid_scope s.name) _ e in
    let (present, h2) =
      require-eq-ok (not (units s.endpoint == 0) && leb (units s.endpoint) 512) _ h1 in
    let (sized, h3) = require-eq-ok (length s.challenge == 32) _ h2 in
    let texts =
      write_string (write_string (write_string new_writer service_auth_context) s.name)
        s.endpoint in
    let (w, first, h4) = bind-eq-ok (fixed texts s.challenge 32) h3 in
    let (key, key_ok, h5) = bind-eq-ok (parse_public_key s.node_key) h4 in
    let (v, second, h6) = bind-eq-ok (fixed w key 32) h5 in
    let (challenge_size, same_w) = fixed-eq-ok texts w s.challenge 32 first in
    let (key_size, same_v) = fixed-eq-ok w v key 32 second in
    record {
      key = key;
      key_read = key_ok;
      valid = valid;
      short = ground arith;
      challenge_size = challenge_size;
      key_size = key_size;
      layout = sym (ok_inj h6) ∙ ap finish same_v ∙ ap (λ x. finish (push x key)) same_w;
    }

length-name :
    (s : List ℕ) → is_valid_scope s ≡ true → (length (text_encode s) < 2 ^ 32) × (text_encode s ≡ s)
length-name s h =
    let (some_text, short, ascii) = is_valid_scope_lem s h in
    let same = text_encode_ascii s ascii in (omega (arith, short, ap length same), same)

layout-injective :
    (s t : ServiceAuthStatement) (bytes : List ℕ) (hs : IsStated s bytes) (ht : IsStated t bytes)
    → statement_bytes s hs.key ≡ statement_bytes t ht.key
    → (text_encode s.name ≡ text_encode t.name)
      × (text_encode s.endpoint ≡ text_encode t.endpoint)
      × (s.challenge ≡ t.challenge)
      × (hs.key ≡ ht.key)
unfolding statement_bytes
layout-injective s t bytes hs ht e =
    let context = text_encode service_auth_context in
    let (size, e1) =
      append_cut (u32_bytes (length context)) _ (u32_bytes (length context)) _ refl e in
    let (same, e2) = append_cut context _ context _ refl e1 in
    let (name, e3) =
      prefixed_cut (text_encode s.name) _ (text_encode t.name) _ (length-name s.name hs.valid).0
        (length-name t.name ht.valid).0 e2 in
    let (endpoint, e4) =
      prefixed_cut (text_encode s.endpoint) _ (text_encode t.endpoint) _
        (omega (arith, length-text_encode s.endpoint, hs.short))
        (omega (arith, length-text_encode t.endpoint, ht.short)) e3 in
    let (challenge, e5) =
      append_cut s.challenge _ t.challenge _ (hs.challenge_size ∙ sym ht.challenge_size) e4 in
    let (key, e6) = append_cut hs.key _ ht.key _ (hs.key_size ∙ sym ht.key_size) e5 in
    (name, endpoint, challenge, key)

-- A proof is good for one name, one endpoint, one challenge and one key.
pub encode_statement-injective :
    (s t : ServiceAuthStatement) (bytes : List ℕ)
    → All IsPoint s.endpoint
    → All IsPoint t.endpoint
    → encode_statement s ≡ ok bytes
    → encode_statement t ≡ ok bytes
    → (s.name ≡ t.name)
      × (s.endpoint ≡ t.endpoint)
      × (s.challenge ≡ t.challenge)
      × (parse_public_key s.node_key ≡ parse_public_key t.node_key)
encode_statement-injective s t bytes ps pt es et =
    let hs = encode_statement-IsStated s bytes es in
    let ht = encode_statement-IsStated t bytes et in
    let (name, endpoint, challenge, key) =
      layout-injective s t bytes hs ht (sym hs.layout ∙ ht.layout) in
    (
      sym (length-name s.name hs.valid).1 ∙ name ∙ (length-name t.name ht.valid).1,
      text_encode-injective s.endpoint t.endpoint ps pt endpoint,
      challenge,
      hs.key_read ∙ ap ok key ∙ sym ht.key_read,
    )
