-- ===== src/Protocol/Session/Handshake/Binding.antt =====
-- What a handshake is for: one role and one name, and one use of each object.
use tnp.Prelude.{
  ℕ, ◌^◌, ◌<◌, ◌≡◌, ◌==◌, refl, sym, ap, ◌∙◌, true, false, List, [], ◌∷◌, ◌++◌, length, arith, ok,
  err, bind-eq-ok, ok_inj, Bool-cases, inl, inr, Result,
}
use tnp.Prelude.Bytes.{u32_bytes}
use tnp.Prelude.Utf8.{text_encode, encode_character}
use tnp.Crypto.Encoding.{
  fixed, write_string, bytes_prefixed, push, finish, concat_bytes, new_writer,
}
use tnp.Crypto.Encoding.Writer.{append_cut, prefixed_cut, text_encode_ascii, fixed-eq-ok}
use tnp.Crypto.Scope.{is_valid_scope}
use tnp.Crypto.Grants.Bytes.{is_valid_scope_lem}
use tnp.Crypto.Primitives.{Primitives}
use tnp.Crypto.KeyAgreement.{Role, service_node, relay, role_text}
use tnp.Protocol.ErrorCode.{protocol_violation}
use tnp.Protocol.Constants.{protocol_version}
use tnp.Protocol.Noise.{Aead}
use tnp.Protocol.Noise.Symmetric.{NoiseError}
use tnp.Protocol.Noise.Pattern.{
  NkInitiator, NkResponder, NoiseSplit, write_message1, read_message1, write_message2,
  read_message2,
}
use tnp.Protocol.Session.{session_error}
use tnp.Protocol.Session.Handshake.{
  session, session_context, session_prologue, is_new, is_started, started, finished,
  ClientHandshake, ServerHandshake, after_start, start, after_finish, finish_handshake, after_reply,
  after_reading, respond,
}

-- The layout of a prologue.
prologue_bytes : Role → List ℕ → List ℕ
prologue_bytes role name =
    let context = text_encode session_context in
    let role_bytes = text_encode (role_text role) in
    let name_bytes = text_encode name in
    u32_bytes (length context)
    ++ (context
        ++ ((protocol_version ∷ [])
            ++ (u32_bytes (length role_bytes)
                ++ (role_bytes ++ (u32_bytes (length name_bytes) ++ (name_bytes ++ []))))))

session_prologue-layout :
    (role : Role) (name bytes : List ℕ)
    → session_prologue role name ≡ ok bytes
    → bytes ≡ prologue_bytes role name
unfolding session_prologue prologue_bytes write_string bytes_prefixed push finish concat_bytes
session_prologue-layout role name bytes h =
    let (w, versioned, h1) =
      bind-eq-ok (fixed (write_string new_writer session_context) (protocol_version ∷ []) 1) h in
    let (size, same) =
      fixed-eq-ok (write_string new_writer session_context) w (protocol_version ∷ []) 1 versioned in
    sym (ok_inj h1) ∙ ap (λ x. finish (write_string (write_string x (role_text role)) name)) same

role_text-injective : (r s : Role) → text_encode (role_text r) ≡ text_encode (role_text s) → r ≡ s
unfolding role_text text_encode encode_character
role_text-injective service_node service_node e = refl
role_text-injective relay relay e = refl
role_text-injective service_node relay e = absurd (ground arith)
role_text-injective relay service_node e = absurd (ground arith)

length-role_text : (r : Role) → length (text_encode (role_text r)) < 2 ^ 32
unfolding role_text text_encode encode_character
length-role_text service_node = omega arith
length-role_text relay = omega arith

prologue_bytes-injective :
    (r s : Role) (n m : List ℕ)
    → is_valid_scope n ≡ true
    → is_valid_scope m ≡ true
    → prologue_bytes r n ≡ prologue_bytes s m
    → (r ≡ s) × (n ≡ m)
unfolding prologue_bytes
prologue_bytes-injective r s n m hn hm e =
    let context = text_encode session_context in
    let (size, e1) =
      append_cut (u32_bytes (length context)) _ (u32_bytes (length context)) _ refl e in
    let (same, e2) = append_cut context _ context _ refl e1 in
    let (version, e3) = append_cut (protocol_version ∷ []) _ (protocol_version ∷ []) _ refl e2 in
    let (role, e4) =
      prefixed_cut (text_encode (role_text r)) _ (text_encode (role_text s)) _ (length-role_text r)
        (length-role_text s) e3 in
    let (some_n, short_n, ascii_n) = is_valid_scope_lem n hn in
    let (some_m, short_m, ascii_m) = is_valid_scope_lem m hm in
    let plain_n = text_encode_ascii n ascii_n in
    let plain_m = text_encode_ascii m ascii_m in
    let (name, e5) =
      prefixed_cut (text_encode n) _ (text_encode m) _ (omega (arith, short_n, ap length plain_n))
        (omega (arith, short_m, ap length plain_m)) e4 in
    (role_text-injective r s role, sym plain_n ∙ name ∙ plain_m)

-- Both ends mix the same prologue only for the same role and the same name.
pub session_prologue-injective :
    (r s : Role) (n m bytes : List ℕ)
    → is_valid_scope n ≡ true
    → is_valid_scope m ≡ true
    → session_prologue r n ≡ ok bytes
    → session_prologue s m ≡ ok bytes
    → (r ≡ s) × (n ≡ m)
session_prologue-injective r s n m bytes hn hm er es =
    prologue_bytes-injective r s n m hn hm
      (sym (session_prologue-layout r n bytes er) ∙ session_prologue-layout s m bytes es)

module _ (c : Primitives) (a : Aead) where
  after_start-state :
      (hs : ClientHandshake) (r : Result NoiseError (List ℕ) × NkInitiator)
      → (after_start c a hs r).1.state ≡ hs.state
  unfolding after_start
  after_start-state hs (ok m, i) = refl
  after_start-state hs (err e, i) = refl

  after_finish-state :
      (hs : ClientHandshake) (r : Result NoiseError (List ℕ × NoiseSplit) × NkInitiator)
      → (after_finish c a hs r).1.state ≡ hs.state
  unfolding after_finish
  after_finish-state hs (ok m, i) = refl
  after_finish-state hs (err e, i) = refl

  after_reply-used :
      (hs : ServerHandshake) (r : Result NoiseError (List ℕ × NoiseSplit) × NkResponder)
      → (after_reply c a hs r).1.used ≡ hs.used
  unfolding after_reply
  after_reply-used hs (ok m, i) = refl
  after_reply-used hs (err e, i) = refl

  after_reading-used :
      (hs : ServerHandshake) (r : Result NoiseError (List ℕ) × NkResponder)
      → (after_reading c a hs r).1.used ≡ hs.used
  unfolding after_reading
  after_reading-used hs (ok m, i) = after_reply-used hs (write_message2 c a i [])
  after_reading-used hs (err e, i) = refl

  start-state : (hs : ClientHandshake) → is_new (start c a hs).1.state ≡ false
  unfolding start
  start-state hs = elim (Bool-cases (is_new hs.state)) [
    | inl e ↦ rw e (
        ap is_new
          (after_start-state (record hs { state = started }) (write_message1 c a hs.noise [])))
    | inr e ↦ rw e e
  ]

  finish-state :
      (hs : ClientHandshake) (m : List ℕ) → is_started (finish_handshake c a hs m).1.state ≡ false
  unfolding finish_handshake
  finish-state hs m = elim (Bool-cases (is_started hs.state)) [
    | inl e ↦ elim (Bool-cases (length m == 48)) [
      | inl d ↦
          rw (e, d)
            (ap is_started
              (after_finish-state (record hs { state = finished }) (read_message2 c a hs.noise m)))
      | inr d ↦ rw (e, d) refl
    ]
    | inr e ↦ rw e e
  ]

  respond-used : (hs : ServerHandshake) (m : List ℕ) → (respond c a hs m).1.used ≡ true
  unfolding respond
  respond-used hs m = elim (Bool-cases hs.used) [
    | inl e ↦ rw e refl
    | inr e ↦ elim (Bool-cases (length m == 48)) [
      | inl d ↦
          rw (e, d) (after_reading-used (record hs { used = true }) (read_message1 c a hs.noise m))
      | inr d ↦ rw (e, d) refl
    ]
  ]

  start_again :
      (hs : ClientHandshake)
      → is_new hs.state ≡ false
      → (start c a hs).0
        ≡ err (session (session_error "handshake already started" protocol_violation))
  unfolding start
  start_again hs e = rw e refl

  finish_again :
      (hs : ClientHandshake) (n : List ℕ)
      → is_started hs.state ≡ false
      → (finish_handshake c a hs n).0
        ≡ err (session (session_error "handshake not awaiting message 2" protocol_violation))
  unfolding finish_handshake
  finish_again hs n e = rw e refl

  respond_again :
      (hs : ServerHandshake) (n : List ℕ)
      → hs.used ≡ true
      → (respond c a hs n).0
        ≡ err (session (session_error "handshake already used" protocol_violation))
  unfolding respond
  respond_again hs n e = rw e refl

  -- A client starts once and finishes once, and a server answers once, whatever came of it.
  pub methods-single_use :
      (hs : ClientHandshake) (server : ServerHandshake) (m n : List ℕ)
      → ((start c a (start c a hs).1).0
          ≡ err (session (session_error "handshake already started" protocol_violation)))
        × ((finish_handshake c a (finish_handshake c a hs m).1 n).0
            ≡ err (session (session_error "handshake not awaiting message 2" protocol_violation)))
        × ((respond c a (respond c a server m).1 n).0
            ≡ err (session (session_error "handshake already used" protocol_violation)))
  methods-single_use hs server m n = (
    start_again (start c a hs).1 (start-state hs),
    finish_again (finish_handshake c a hs m).1 n (finish-state hs m),
    respond_again (respond c a server m).1 n (respond-used server m),
  )
