-- ===== src/Crypto/Separation.antt =====
-- The three signed formats begin with contexts of different lengths.
use mathlib.Core.List.{append_assoc, append-nil}
use mathlib.Core.Path.{subst}
use tnp.Prelude.{
  ℕ, ◌≡◌, ◌≢◌, refl, sym, ap, ◌∙◌, ◌==◌, not, ◌&&◌, leb, List, [], ◌∷◌, ◌++◌, length, get_or,
  default_to, ok, bind-eq-ok, require-eq-ok, ok_inj, Number, whole, value, arith,
}
use tnp.Prelude.Bytes.{u32_bytes, u64_bytes, u16_bytes}
use tnp.Prelude.Texts.{code_points}
use tnp.Prelude.Utf8.{text_encode, encode_character}
use tnp.Crypto.Encoding.{
  CanonicalWriter, new_writer, push, bytes_prefixed, write_string, fixed, uint, finish,
  concat_bytes, assert_uint, parse_public_key,
}
use tnp.Crypto.Scope.{is_valid_scope}
use tnp.Crypto.Grants.{ParsedGrant, grant_context, encode_parsed, sort, join_purposes}
use tnp.Crypto.KeyAgreement.{
  ParsedCertificate, key_agreement_context, encode_certificate, role_text,
}
use tnp.Crypto.ServiceAuth.{ServiceAuthStatement, service_auth_context, encode_statement, units}

-- What is written begins with four bytes of which the last is this.
abbrev Begins : ℕ → CanonicalWriter → Type 0
Begins n w = (a : ℕ) × (b : ℕ) × (c : ℕ) × (r : List ℕ) × (finish w ≡ a ∷ b ∷ c ∷ n ∷ r)

concat_bytes-append :
    (ps : List (List ℕ)) (p : List ℕ) → concat_bytes (ps ++ (p ∷ [])) ≡ concat_bytes ps ++ p
unfolding concat_bytes
concat_bytes-append [] p = append-nil p
concat_bytes-append (q ∷ ps) p =
    ap (λ r. q ++ r) (concat_bytes-append ps p) ∙ sym (append_assoc q (concat_bytes ps) p)

push-Begins : (n : ℕ) (w : CanonicalWriter) (p : List ℕ) → Begins n w → Begins n (push w p)
unfolding push finish
push-Begins n w p (a, b, c, r, e) =
    (a, b, c, r ++ p, concat_bytes-append w.parts p ∙ ap (λ x. x ++ p) e)

write_string-Begins :
    (n : ℕ) (w : CanonicalWriter) (s : List ℕ) → Begins n w → Begins n (write_string w s)
unfolding write_string bytes_prefixed
write_string-Begins n w s h = push-Begins n _ _ (push-Begins n _ _ h)

fixed-Begins :
    (n : ℕ) (w w' : CanonicalWriter) (s : List ℕ) (size : ℕ)
    → fixed w s size ≡ ok w'
    → Begins n w
    → Begins n w'
unfolding fixed
fixed-Begins n w w' s size e h =
    let (fits, e1) = require-eq-ok (length s == size) _ e in
    subst (Begins n) (ok_inj e1) (push-Begins n w s h)

uint-Begins :
    (n : ℕ) (w w' : CanonicalWriter) (m : Number) → uint w m ≡ ok w' → Begins n w → Begins n w'
unfolding uint
uint-Begins n w w' m e h =
    let (u, fits, e1) = bind-eq-ok (assert_uint m) e in
    subst (Begins n) (ok_inj e1) (push-Begins n w (u64_bytes (value m)) h)

context-Begins :
    Begins 12 (write_string new_writer grant_context)
    × Begins 20 (write_string new_writer key_agreement_context)
    × Begins 25 (write_string new_writer service_auth_context)
unfolding write_string bytes_prefixed push finish concat_bytes code_points text_encode
    encode_character u32_bytes u16_bytes
context-Begins = ((0, 0, 0, _, refl), (0, 0, 0, _, refl), (0, 0, 0, _, refl))

-- The fourth byte of a format.
grant_byte : (g : ParsedGrant) (bytes : List ℕ) → encode_parsed g ≡ ok bytes → get_or bytes 3 0 ≡ 12
unfolding encode_parsed
grant_byte g bytes e =
    let named = write_string new_writer grant_context in
    let (w1, e1, f1) = bind-eq-ok (fixed named g.issuer 32) e in
    let (w2, e2, f2) = bind-eq-ok (fixed w1 g.subject 32) f1 in
    let w3 = write_string w2 (join_purposes (sort g.purposes)) in
    let (w4, e4, f4) = bind-eq-ok (uint w3 (whole g.not_before)) f2 in
    let (w5, e5, f5) = bind-eq-ok (uint w4 (whole g.not_after)) f4 in
    let (w6, e6, f6) = bind-eq-ok (uint w5 (whole g.serial)) f5 in
    let (a, b, c, r, shape) = write_string-Begins 12 w6 (default_to [] g.scope) (
      uint-Begins 12 w5 w6 _ e6 (
        uint-Begins 12 w4 w5 _ e5 (
          uint-Begins 12 w3 w4 _ e4 (
            write_string-Begins 12 w2 _ (
              fixed-Begins 12 w1 w2 _ _ e2
                (fixed-Begins 12 named w1 _ _ e1 context-Begins.0)))))) in
    ap (λ bs. get_or bs 3 0) (sym (ok_inj f6) ∙ shape)

certificate_byte :
    (p : ParsedCertificate) (bytes : List ℕ)
    → encode_certificate p ≡ ok bytes
    → get_or bytes 3 0 ≡ 20
unfolding encode_certificate
certificate_byte p bytes e =
    let named = write_string new_writer key_agreement_context in
    let (grants, certificates, statements) = context-Begins in
    let (w1, e1, f1) = bind-eq-ok (fixed named p.signer 32) e in
    let (w2, e2, f2) = bind-eq-ok (fixed w1 p.key 32) f1 in
    let w3 = write_string (write_string w2 (role_text p.role)) p.scope in
    let (w4, e4, f4) = bind-eq-ok (uint w3 (whole p.not_before)) f2 in
    let (w5, e5, f5) = bind-eq-ok (uint w4 (whole p.not_after)) f4 in
    let (w6, e6, f6) = bind-eq-ok (uint w5 (whole p.serial)) f5 in
    let (a, b, c, r, shape) = uint-Begins 20 w5 w6 _ e6 (
      uint-Begins 20 w4 w5 _ e5 (
        uint-Begins 20 w3 w4 _ e4 (
          write_string-Begins 20 _ _ (
            write_string-Begins 20 w2 _
              (fixed-Begins 20 w1 w2 _ _ e2 (fixed-Begins 20 named w1 _ _ e1 certificates)))))) in
    ap (λ bs. get_or bs 3 0) (sym (ok_inj f6) ∙ shape)

statement_byte :
    (s : ServiceAuthStatement) (bytes : List ℕ)
    → encode_statement s ≡ ok bytes
    → get_or bytes 3 0 ≡ 25
unfolding encode_statement
statement_byte s bytes e =
    let (valid, h1) = require-eq-ok (is_valid_scope s.name) _ e in
    let (present, h2) =
      require-eq-ok (not (units s.endpoint == 0) && leb (units s.endpoint) 512) _ h1 in
    let (sized, h3) = require-eq-ok (length s.challenge == 32) _ h2 in
    let texts =
      write_string (write_string (write_string new_writer service_auth_context) s.name)
        s.endpoint in
    let (grants, certificates, statements) = context-Begins in
    let (w1, e1, f1) = bind-eq-ok (fixed texts s.challenge 32) h3 in
    let (key, key_ok, f2) = bind-eq-ok (parse_public_key s.node_key) f1 in
    let (w2, e2, f3) = bind-eq-ok (fixed w1 key 32) f2 in
    let (a, b, c, r, shape) = fixed-Begins 25 w1 w2 _ _ e2 (
      fixed-Begins 25 texts w1 _ _ e1
        (write_string-Begins 25 _ _ (write_string-Begins 25 _ _ statements))) in
    ap (λ bs. get_or bs 3 0) (sym (ok_inj f3) ∙ shape)

-- No bytes are signed as two of the three: a grant, a certificate and a relay proof.
pub formats-differ :
    (g : ParsedGrant) (p : ParsedCertificate) (s : ServiceAuthStatement) (bytes : List ℕ)
    → (encode_parsed g ≡ ok bytes → encode_certificate p ≢ ok bytes)
      × (encode_parsed g ≡ ok bytes → encode_statement s ≢ ok bytes)
      × (encode_certificate p ≡ ok bytes → encode_statement s ≢ ok bytes)
formats-differ g p s bytes = (
  λ h k. omega (arith, grant_byte g bytes h, certificate_byte p bytes k),
  λ h k. omega (arith, grant_byte g bytes h, statement_byte s bytes k),
  λ h k. omega (arith, certificate_byte p bytes h, statement_byte s bytes k),
)
