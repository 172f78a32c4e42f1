-- ===== src/Protocol/Session/Handshake/Agreement.antt =====
-- An honest handshake: client and server end with sessions that are in step, both ways.
use tnp.Prelude.{
  ℕ, ◌^◌, ◌≤◌, ◌≡◌, refl, sym, ap, ◌∙◌, ◌==◌, ==→eq, true, false, not, List, [], length, Result, ok,
  err, default_to, bind-eq-ok, require-eq-ok, ok_inj, arith, Option, RangeError,
}
use tnp.Prelude.Counts.{ℤ}
use tnp.Prelude.Texts.{same_text, same_text-eq}
use tnp.Crypto.Encoding.{EncodingError}
use tnp.Crypto.Primitives.{
  Primitives, ArePrimitives, KeyAgreementError, X25519KeyPair, x25519_key_pair_from_secret,
  assert_valid_x25519_public_key, assert_canonical_x25519, is_all_zero,
}
use tnp.Crypto.KeyAgreement.{Role, service_node, VerifiedKey}
use tnp.Protocol.Noise.{Aead, IsAead}
use tnp.Protocol.Noise.Pattern.{new_initiator, new_responder}
use tnp.Protocol.Noise.Agreement.{IsKeyPair, Run, honest-Run}
use tnp.Protocol.Session.{Session, ResolvedLimits, resolve_limits, create}
use tnp.Protocol.Session.Bounds.{resolve_limits_bounds}
use tnp.Protocol.Session.Channel.{IsSynced}
use tnp.Protocol.Session.Handshake.{
  or_range, or_encoding, or_key, session_prologue, returned, is_past, SessionLimits,
  ClientHandshake, ServerHandshake, client_handshake, server_handshake, after_start, start,
  after_finish, finish_handshake, after_reply, after_reading, respond, new, started, finished,
}

or_range-eq-ok {ℓ} : {A : Type ℓ} (m : Result RangeError A) {a : A} → or_range m ≡ ok a → m ≡ ok a
or_range-eq-ok (ok b) h = ap ok (ok_inj h)
or_range-eq-ok (err e) h = absurd (ground arith)

or_encoding-eq-ok {ℓ} :
    {A : Type ℓ} (m : Result EncodingError A) {a : A} → or_encoding m ≡ ok a → m ≡ ok a
or_encoding-eq-ok (ok b) h = ap ok (ok_inj h)
or_encoding-eq-ok (err e) h = absurd (ground arith)

or_key-eq-ok {ℓ} :
    {A : Type ℓ} (m : Result KeyAgreementError A) {a : A} → or_key m ≡ ok a → m ≡ ok a
or_key-eq-ok (ok b) h = ap ok (ok_inj h)
or_key-eq-ok (err e) h = absurd (ground arith)

module _ (c : Primitives) where
  client_handshake-eq-ok :
      (server : VerifiedKey) (name : List ℕ) (now : Option ℤ) (limits : SessionLimits)
      (e : X25519KeyPair) (hs : ClientHandshake)
      → client_handshake c (returned server) name now limits e ≡ ok hs
      → (prologue : List ℕ) × (resolved : ResolvedLimits) × (session_prologue server.role name
          ≡ ok prologue)
        × (resolve_limits limits.max_records limits.interval ≡ ok resolved)
        × (hs ≡ record {
          noise = new_initiator c prologue server.public_key e;
          limits = resolved;
          state = new;
        })
  unfolding client_handshake
  client_handshake-eq-ok server name now limits e hs h =
      let (named, h1) = require-eq-ok (same_text name server.scope) _ h in
      let (current, h2) = require-eq-ok (not (is_past now server.not_after)) _ h1 in
      let (resolved, limits_ok, h3) =
        bind-eq-ok (or_range (resolve_limits limits.max_records limits.interval)) h2 in
      let (prologue, prologue_ok, h4) =
        bind-eq-ok (or_encoding (session_prologue server.role name)) h3 in
      (
        prologue,
        resolved,
        or_encoding-eq-ok (session_prologue server.role name) prologue_ok,
        or_range-eq-ok (resolve_limits limits.max_records limits.interval) limits_ok,
        sym (ok_inj h4),
      )

  derived-IsKeyPair :
      (secret : List ℕ) (pair : X25519KeyPair)
      → x25519_key_pair_from_secret c secret ≡ ok pair
      → assert_valid_x25519_public_key c pair.public_key ≡ ok tt
      → IsKeyPair c pair
  unfolding x25519_key_pair_from_secret assert_valid_x25519_public_key
  derived-IsKeyPair secret pair h valid =
      let (size, h1) = require-eq-ok (length secret == 32) _ h in
      let (u, canonical, h2) = bind-eq-ok (assert_canonical_x25519 pair.public_key) valid in
      let same = ok_inj h1 in
      record {
        derived = ap (λ p. p.public_key) (sym same) ∙ ap (λ p. c.base p.secret_key) same;
        secret_size = ap (λ p. length p.secret_key) (sym same) ∙ ==→eq _ _ size;
        canonical = canonical;
      }

  -- The server's static key is a key pair, and the one that was given.
  server_handshake-eq-ok :
      (static_key : X25519KeyPair) (name : List ℕ) (role : Option Role) (limits : SessionLimits)
      (e : X25519KeyPair) (hs : ServerHandshake)
      → server_handshake c static_key name role limits e ≡ ok hs
      → (derived : X25519KeyPair) × (prologue : List ℕ) × (resolved : ResolvedLimits) × IsKeyPair c
          derived
        × (derived.public_key ≡ static_key.public_key)
        × (session_prologue (default_to service_node role) name ≡ ok prologue)
        × (resolve_limits limits.max_records limits.interval ≡ ok resolved)
        × (hs ≡ record {
          noise = new_responder c prologue derived e;
          limits = resolved;
          used = false;
        })
  unfolding server_handshake
  server_handshake-eq-ok static_key name role limits e hs h =
      let (derived, derived_ok, h1) =
        bind-eq-ok (or_key (x25519_key_pair_from_secret c static_key.secret_key)) h in
      let (matches, h2) = require-eq-ok (same_text derived.public_key static_key.public_key) _ h1 in
      let (u, valid, h3) =
        bind-eq-ok (or_key (assert_valid_x25519_public_key c derived.public_key)) h2 in
      let (resolved, limits_ok, h4) =
        bind-eq-ok (or_range (resolve_limits limits.max_records limits.interval)) h3 in
      let (prologue, prologue_ok, h5) =
        bind-eq-ok (or_encoding (session_prologue (default_to service_node role) name)) h4 in
      (
        derived,
        prologue,
        resolved,
        derived-IsKeyPair static_key.secret_key derived
            (or_key-eq-ok (x25519_key_pair_from_secret c static_key.secret_key) derived_ok)
            (or_key-eq-ok (assert_valid_x25519_public_key c derived.public_key) valid),
        same_text-eq derived.public_key static_key.public_key matches,
        or_encoding-eq-ok (session_prologue (default_to service_node role) name) prologue_ok,
        or_range-eq-ok (resolve_limits limits.max_records limits.interval) limits_ok,
        sym (ok_inj h5),
      )

-- The messages and what each method answers; the sessions are in step both ways.
pub record Established (c : Primitives) (a : Aead) (client : ClientHandshake)
    (server : ServerHandshake) : Type 0 where
  pub message1 : List ℕ
  pub message2 : List ℕ
  pub client_session : Session
  pub server_session : Session
  pub client1 : ClientHandshake
  pub client2 : ClientHandshake
  pub server1 : ServerHandshake
  pub started_with : start c a client ≡ (ok message1, client1)
  pub responded : respond c a server message1 ≡ (ok (message2, server_session), server1)
  pub finished_with : finish_handshake c a client1 message2 ≡ (ok client_session, client2)
  pub to_server : IsSynced client_session server_session
  pub to_client : IsSynced server_session client_session
  pub same_hash : client_session.hash ≡ server_session.hash

module _ (c : Primitives) (a : Aead) where
  Run-Established :
      (prologue : List ℕ) (resolved : ResolvedLimits) (st e f : X25519KeyPair)
      → resolved.max_records_per_key ≤ 2 ^ 32
      → Run c a prologue [] [] st e f
      → Established c a
          (record {
            noise = new_initiator c prologue st.public_key e;
            limits = resolved;
            state = new;
          })
          (record { noise = new_responder c prologue st f; limits = resolved; used = false })
  unfolding start after_start respond after_reading after_reply finish_handshake after_finish create
  Run-Established prologue resolved st e f bound run =
      let size1 : (length run.message1 == 48) ≡ true = ground (arith, run.size1) in
      let size2 : (length run.message2 == 48) ≡ true = ground (arith, run.size2) in
      record {
        message1 = run.message1;
        message2 = run.message2;
        client_session = create run.key1 run.key2 run.hash resolved;
        server_session = create run.key2 run.key1 run.hash resolved;
        client1 = record { noise = run.initiator1; limits = resolved; state = started };
        client2 = record { noise = run.initiator2; limits = resolved; state = finished };
        server1 = record { noise = run.responder2; limits = resolved; used = true };
        started_with = rw run.first_written refl;
        responded = rw (size1, run.first_read, run.second_written) refl;
        finished_with = rw (size2, run.second_read) refl;
        to_server = record {
          keys = refl;
          counters = refl;
          closes = refl;
          sender_lives = refl;
          receiver_lives = refl;
          same_limit = refl;
          limit = bound;
        };
        to_client = record {
          keys = refl;
          counters = refl;
          closes = refl;
          sender_lives = refl;
          receiver_lives = refl;
          same_limit = refl;
          limit = bound;
        };
        same_hash = refl;
      }

  -- An honest handshake succeeds. The client has a certified key, and the server was made with the
  -- key pair that the key belongs to, for the same name, role and limits; the ephemeral keys are key
  -- pairs, and neither exchange gives the point that is refused.
  pub handshake-Established :
      ArePrimitives c
      → IsAead a
      → (certified : VerifiedKey) (static_key e f : X25519KeyPair) (name : List ℕ) (now : Option ℤ)
        (role : Option Role) (limits : SessionLimits) (client : ClientHandshake)
        (server : ServerHandshake)
      → client_handshake c (returned certified) name now limits e ≡ ok client
      → server_handshake c static_key name role limits f ≡ ok server
      → certified.public_key ≡ static_key.public_key
      → certified.role ≡ default_to service_node role
      → IsKeyPair c e
      → IsKeyPair c f
      → is_all_zero (c.scalar_mult e.secret_key static_key.public_key) ≡ false
      → is_all_zero (c.scalar_mult e.secret_key f.public_key) ≡ false
      → Established c a client server
  handshake-Established laws law certified static_key e f name now role limits client server hc hs
        same_key same_role he hf nz1 nz2 =
      let (prologue, resolved, prologue_ok, limits_ok, client_is) =
        client_handshake-eq-ok c certified name now limits e client hc in
      let (derived, prologue', resolved', pair, given, prologue_ok', limits_ok', server_is) =
        server_handshake-eq-ok c static_key name role limits f server hs in
      let same_prologue : prologue' ≡ prologue =
        ok_inj
          (sym prologue_ok' ∙ ap (λ r. session_prologue r name) (sym same_role) ∙ prologue_ok) in
      let same_limits : resolved' ≡ resolved = ok_inj (sym limits_ok' ∙ limits_ok) in
      let known : certified.public_key ≡ derived.public_key = same_key ∙ sym given in
      let nonzero : is_all_zero (c.scalar_mult e.secret_key derived.public_key) ≡ false =
        ap (λ k. is_all_zero (c.scalar_mult e.secret_key k)) given ∙ nz1 in
      let run = honest-Run c laws a law prologue [] [] derived e f pair he hf nonzero nz2 in
      let bound = (resolve_limits_bounds limits.max_records limits.interval resolved limits_ok).1 in
      let made = Run-Established prologue resolved derived e f bound run in
      let client_as : client ≡ record {
        noise = new_initiator c prologue derived.public_key e;
        limits = resolved;
        state = new;
      } =
        client_is
        ∙ ap (λ k. record { noise = new_initiator c prologue k e; limits = resolved; state = new })
            known in
      let server_as : server
          ≡ record { noise = new_responder c prologue derived f; limits = resolved; used = false } =
        server_is
        ∙ ap (λ p. record { noise = new_responder c p derived f; limits = resolved'; used = false })
            same_prologue
        ∙ ap (λ l. record { noise = new_responder c prologue derived f; limits = l; used = false })
            same_limits in
      rw (client_as, server_as) made
