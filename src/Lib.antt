-- ===== src/Lib.antt =====
-- TNP, the network protocol: a model of the parts of the repository that decide what goes over the
-- wire and what is accepted from it.
--
-- packages/protocol/src is the wire protocol v1, spoken by clients, relays and service nodes.
--
-- - Protocol/Constants, Protocol/ErrorCode and Protocol/FrameType hold the values of constants.ts.
-- - Protocol/Frame is frame.ts: `encode_frame` is encodeFrame and `decode_frame` is decodeFrame, each
--   with its guards in the source's order. A byte array is a list of numbers below 256; a number or a
--   bigint that a guard tests is a `Number`, a natural number or anything else. An exception is the
--   error case of a `Result`; values that a message interpolates are left out. Protocol/Frame/Errors has
--   encodeError and truncateUtf8.
-- - Protocol/FlowControl is flow-control.ts: `FlowWindow` and `StreamFlow`. Streams share their
--   circuit's window, so a circuit is the shared window and a list of stream windows, and each call
--   puts both windows back.
-- - Protocol/CircuitId is circuit-id.ts: `CircuitTable`, whose map is an association list in insertion
--   order (Prelude/Maps), and the generators, over a list of random draws in place of the endless
--   loop. The draws suffice as soon as one of them is not zero.
-- - Protocol/Noise is noise.ts: the cipher functions over an AEAD that is a parameter (`Aead`), with
--   what RFC 8439 says of it as hypotheses (`IsAead`); Protocol/Noise/Symmetric has the symmetric state
--   and Protocol/Noise/Pattern both ends of the NK pattern. A method returns its object beside what it
--   returns or throws, and an ephemeral key pair that the source draws is an argument.
-- - Protocol/Session is session.ts: `Session` is SessionCipher's state, and each method takes it and
--   returns the new one. `seal`, `close_session`, `update_key`, `open_next` and `transport_ended` are
--   seal, close, updateKey, open and transportEnded. Protocol/Session/Handshake has ClientHandshake and
--   ServerHandshake; Protocol/Session/Runs has a cipher that meets the hypotheses.
-- - Protocol/Overlay is overlay.ts: canonical names, the circuit messages, the stream messages inside
--   sealed records and the relay's identity proof. Prelude/Utf8 is the runtime's text encoder and decoder, and
--   Prelude/Texts has the bytes of string literals.
--
-- packages/crypto/src is what is signed, by whom, and who accepts it.
--
-- - Crypto/Encoding is encoding.ts: base64 by groups, the writer of signed bytes, public keys. A field
--   of a JSON object is a `Field`, a text, a number, a list or anything else; what a guard never looks
--   at is left out. Crypto/Scope is scope.ts.
-- - Crypto/Primitives is primitives.ts over the functions of the third-party packages, which are the
--   parameters `Primitives` and, for Ed25519, `Signatures`.
-- - Crypto/Grants is grants.ts: a grant's parser and its canonical bytes; Crypto/Grants/Verifying
--   walks a chain of grants up to a trusted root. A refusal that the source returns and an error that
--   it throws are told apart (`Stop`).
-- - Crypto/KeyAgreement is key-agreement.ts, the certificates of session keys, and Crypto/ServiceAuth is
--   service-auth.ts. Crypto/Separation is about all the formats that a key signs.
--
-- packages/relay-core/src is the relay, which carries circuits between clients and service nodes.
--
-- - Relay/Limits and Relay/Ips are limits.ts: the limits, token buckets and the tracker of addresses. A
--   bucket counts units of 1/10000 of a token, so that its fractions are exact.
-- - Relay/State is the state of core.ts. An object (a connection, a circuit) is a number, which is its
--   identity; the relay holds the fields of every object that was made, so that an object outlives its
--   removal from the maps as it does in the source. Counts that go down are integers (Prelude/Counts).
-- - Relay/Circuits, Relay/Connections, Relay/Services, Relay/Dispatch and Relay/Sweeping are the methods
--   of RelayCore under their names. What is sent goes to the list `outputs`; one event reads the clock
--   once, and what the transports answer during it is an `Environment`. The lookup of a domain key ends
--   one event and its answer begins another, so that everything may happen in between.
-- - Relay/Events has the events and `run`, a relay's history from its start. The loop that draws a free
--   identifier is recursion over the list of draws that comes with a message; a list that runs out
--   stands for a loop that goes on, and one draw that does is enough. A transport that throws is not
--   modelled.
-- - Relay/Services takes certificates and signatures as a parameter (`Trust`), so that the bounds hold
--   whatever they answer; Relay/Services/Certified fills it with Crypto, and only the reader of the
--   proof's JSON is left as a parameter.
-- - Relay/Lowers and Relay/Bounds are about the bounds, and the children of the other modules about what
--   their names say.
--
-- packages/client/src is what runs at the ends of a circuit. Client/SecureCircuit is the state of
-- overlay/secure-circuit.ts and how it ends, Client/SecureCircuit/Sending and Client/SecureCircuit/Receiving
-- are its other methods, and a history is a list of operations, each with the connection as it is during
-- it. A callback is a call in a list; what its owner does in it is a later operation. A frame is what
-- encodeFrame is given. Client/SecureCircuit/Kept shows once, for any predicate, what every operation
-- keeps, and its users are Client/SecureCircuit/Sound and Client/SecureCircuit/Clean. The loop of `write`
-- has as much fuel as there are bytes, since each turn takes at least one (Client/SecureCircuit/Writing).
--
-- packages/namespace/src is the policy on names; Namespace/Expiry is the lifecycle of expiry.ts.
--
-- Each component's children prove its properties, and its Runs holds tests and each theorem at a
-- concrete input. Prelude holds what the components share.
--
-- Not modelled: sockets, timers, storage and user interfaces (input and output only), the services
-- layer of apps/api, and the cryptographic primitives, which third-party packages provide.
pub mod Client
pub mod Crypto
pub mod Namespace
pub mod Prelude
pub mod Protocol
pub mod Relay
