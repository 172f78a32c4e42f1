-- ===== src/Client.antt =====
-- packages/client/src: what a client and a service node do at the ends of a circuit.
pub mod SecureCircuit
