-- ===== src/Crypto/Grants/Bytes.antt =====
-- The signed bytes of a grant: a parsed grant always has them, and equal bytes mean equal grants, up
-- to the order in which purposes were listed.
use tnp.Prelude.{
  ℕ, ◌-◌, ◌^◌, ◌≤◌, ◌<◌, ◌≡◌, refl, sym, ap, ◌∙◌, true, false, leb, Option, none, some, List, [],
  ◌++◌, length, All, arith, ok, default_to, bind-eq-ok, ok_inj,
}
use tnp.Prelude.Bytes.{u32_bytes, u64_bytes}
use tnp.Prelude.Utf8.{IsAscii, text_encode}
use tnp.Protocol.Overlay.Name.{is_canonical_name, is_canonical_name_lem}
use tnp.Crypto.Encoding.{
  concat_bytes, push, bytes_prefixed, write_string, fixed, uint, assert_uint, finish,
}
use tnp.Crypto.Encoding.Writer.{append_cut, prefixed_cut, u64_cut, text_encode_ascii}
use tnp.Crypto.Scope.{is_valid_scope}
use tnp.Crypto.Grants.{
  Purpose, includes, GrantInput, canonical_grant_bytes, parse_unsigned, ParsedGrant, sort,
  join_purposes, grant_context, encode_parsed,
}
use tnp.Crypto.Grants.Parsing.{IsNamed, IsParsed, parse_unsigned-IsParsed}
use tnp.Crypto.Grants.Purposes.{
  length-join_purposes, join_purposes-IsAscii, length-sort, length_unique, sort-includes,
}
use tnp.Crypto.Grants.Joined.{join_purposes-injective}

-- A valid scope is short, not empty and in ASCII.
pub is_valid_scope_lem :
    (s : List ℕ) → is_valid_scope s ≡ true → (1 ≤ length s) × (length s ≤ 253) × All IsAscii s
is_valid_scope_lem s h = is_canonical_name_lem s (unfold is_valid_scope is_canonical_name in h)

-- The layout: the context, both keys, the purposes, the times and the serial, and the scope.
pub written : ParsedGrant → List ℕ
written g =
    let named = text_encode grant_context in
    let purposes = text_encode (join_purposes (sort g.purposes)) in
    let scope = text_encode (default_to [] g.scope) in
    u32_bytes (length named)
    ++ (named
        ++ (g.issuer
            ++ (g.subject
                ++ (u32_bytes (length purposes)
                    ++ (purposes
                        ++ (u64_bytes g.not_before
                            ++ (u64_bytes g.not_after
                                ++ (u64_bytes g.serial
                                    ++ (u32_bytes (length scope) ++ (scope ++ []))))))))))

pub encode_parsed-written : (g : ParsedGrant) → IsParsed g → encode_parsed g ≡ ok (written g)
unfolding encode_parsed written fixed uint assert_uint write_string bytes_prefixed push finish
    concat_bytes
encode_parsed-written g h =
    let safe : (n : ℕ) → n < 2 ^ 53 → leb n (2 ^ 53 - 1) ≡ true = λ n small. ground arith in
    rw
      (
        h.issuer_size,
        h.subject_size,
        safe g.not_before h.from_safe,
        safe g.not_after h.until_safe,
        safe g.serial h.serial_safe,
      )
      refl

-- The texts that are written with their length in front are short and in ASCII.
length-scope :
    (ps : List Purpose) (s : Option (List ℕ))
    → IsNamed ps s
    → (length (default_to [] s) < 2 ^ 32) × All IsAscii (default_to [] s)
length-scope ps none h = (omega arith, tt)
length-scope ps (some s) h =
    let (some_text, short, ascii) = is_valid_scope_lem s h in (omega (arith, short), ascii)

scope-injective :
    (ps qs : List Purpose) (s t : Option (List ℕ))
    → IsNamed ps s
    → IsNamed qs t
    → default_to [] s ≡ default_to [] t
    → s ≡ t
scope-injective ps qs none none h k e = refl
scope-injective ps qs none (some t) h k e =
    let (some_text, short, ascii) = is_valid_scope_lem t k in
    absurd (omega (arith, some_text, ap length e))
scope-injective ps qs (some s) none h k e =
    let (some_text, short, ascii) = is_valid_scope_lem s h in
    absurd (omega (arith, some_text, ap length e))
scope-injective ps qs (some s) (some t) h k e = ap some e

length-purposes : (g : ParsedGrant) → IsParsed g → length (join_purposes (sort g.purposes)) < 2 ^ 32
length-purposes g h = omega (
  arith,
  length-join_purposes (sort g.purposes),
  length-sort g.purposes,
  length_unique g.purposes h.unique,
)

-- What two grants with the same bytes agree on.
pub record IsSameGrant (g h : ParsedGrant) : Type 0 where
  pub issuer : g.issuer ≡ h.issuer
  pub subject : g.subject ≡ h.subject
  pub purposes : (p : Purpose) → includes g.purposes p ≡ includes h.purposes p
  pub not_before : g.not_before ≡ h.not_before
  pub not_after : g.not_after ≡ h.not_after
  pub serial : g.serial ≡ h.serial
  pub scope : g.scope ≡ h.scope

-- The rest after the two keys.
tail_same :
    (a b c d : List ℕ) (n m k n' m' k' : ℕ)
    → length a < 2 ^ 32
    → length b < 2 ^ 32
    → length c < 2 ^ 32
    → length d < 2 ^ 32
    → n < 2 ^ 53
    → m < 2 ^ 53
    → k < 2 ^ 53
    → n' < 2 ^ 53
    → m' < 2 ^ 53
    → k' < 2 ^ 53
    → u32_bytes (length a)
        ++ (a
            ++ (u64_bytes n
                ++ (u64_bytes m ++ (u64_bytes k ++ (u32_bytes (length b) ++ (b ++ []))))))
      ≡ u32_bytes (length c)
        ++ (c
            ++ (u64_bytes n'
                ++ (u64_bytes m' ++ (u64_bytes k' ++ (u32_bytes (length d) ++ (d ++ []))))))
    → (a ≡ c) × (n ≡ n') × (m ≡ m') × (k ≡ k') × (b ≡ d)
tail_same a b c d n m k n' m' k' ha hb hc hd hn hm hk hn' hm' hk' e =
    let (ac, e1) = prefixed_cut a _ c _ ha hc e in
    let (nn, e2) = u64_cut n n' _ _ (omega arith) (omega arith) e1 in
    let (mm, e3) = u64_cut m m' _ _ (omega arith) (omega arith) e2 in
    let (kk, e4) = u64_cut k k' _ _ (omega arith) (omega arith) e3 in
    let (bd, e5) = prefixed_cut b _ d _ hb hd e4 in (ac, nn, mm, kk, bd)

written-injective :
    (g h : ParsedGrant) → IsParsed g → IsParsed h → written g ≡ written h → IsSameGrant g h
unfolding written
written-injective g h pg ph e =
    let named = text_encode grant_context in
    let (context_length, e1) =
      append_cut (u32_bytes (length named)) _ (u32_bytes (length named)) _ refl e in
    let (context, e2) = append_cut named _ named _ refl e1 in
    let (issuer, e3) = append_cut g.issuer _ h.issuer _ (pg.issuer_size ∙ sym ph.issuer_size) e2 in
    let (subject, e4) =
      append_cut g.subject _ h.subject _ (pg.subject_size ∙ sym ph.subject_size) e3 in
    let (scope_size_g, scope_ascii_g) = length-scope g.purposes g.scope pg.named in
    let (scope_size_h, scope_ascii_h) = length-scope h.purposes h.scope ph.named in
    let e5 =
      rw
        (
          text_encode_ascii (join_purposes (sort g.purposes))
              (join_purposes-IsAscii (sort g.purposes)),
          text_encode_ascii (join_purposes (sort h.purposes))
              (join_purposes-IsAscii (sort h.purposes)),
          text_encode_ascii (default_to [] g.scope) scope_ascii_g,
          text_encode_ascii (default_to [] h.scope) scope_ascii_h,
        )
        at e4 in
    let (joined, from, until, serial, scope) =
      tail_same _ _ _ _ _ _ _ _ _ _ (length-purposes g pg) scope_size_g (length-purposes h ph)
        scope_size_h pg.from_safe pg.until_safe pg.serial_safe ph.from_safe ph.until_safe
        ph.serial_safe e5 in
    record {
      issuer = issuer;
      subject = subject;
      purposes = λ p. sort-includes g.purposes h.purposes p (join_purposes-injective _ _ joined);
      not_before = from;
      not_after = until;
      serial = serial;
      scope = scope-injective g.purposes h.purposes g.scope h.scope pg.named ph.named scope;
    }

-- One value, one encoding: two grants with the same signed bytes are the same.
pub canonical_grant_bytes-injective :
    (g h : GrantInput) (bytes : List ℕ)
    → canonical_grant_bytes g ≡ ok bytes
    → canonical_grant_bytes h ≡ ok bytes
    → (p : ParsedGrant) × (q : ParsedGrant) × (parse_unsigned g false ≡ ok p)
      × (parse_unsigned h false ≡ ok q)
      × IsSameGrant p q
unfolding canonical_grant_bytes
canonical_grant_bytes-injective g h bytes eg eh =
    let (p, parse_g, bytes_g) = bind-eq-ok (parse_unsigned g false) eg in
    let (q, parse_h, bytes_h) = bind-eq-ok (parse_unsigned h false) eh in
    let pg = parse_unsigned-IsParsed g false p parse_g in
    let ph = parse_unsigned-IsParsed h false q parse_h in
    let same =
      sym (encode_parsed-written p pg) ∙ bytes_g ∙ sym bytes_h ∙ encode_parsed-written q ph in
    (p, q, parse_g, parse_h, written-injective p q pg ph (ok_inj same))
