-- ===== src/Relay/Services/Incumbent.antt =====
-- The node that serves a name is not driven out by another.
use tnp.Prelude.{
  ℕ, ◌/◌, ◌≡◌, refl, ◌≢◌, ◌∙◌, ap, false, Option, none, some, List, ok, inl, inr, Bool-cases,
  Result-cases,
}
use tnp.Relay.Services.{
  Trust, ServiceAuth, Subject, refuse, contend, verify_service, is_proof, same_key,
}
use tnp.Relay.Services.Spares.{
  Spares, Spares-refl, Spares-trans, Spares-if, Spares-count, fail-Spares,
}
use tnp.Relay.State.{Relay, Environment, find_service}

refuse-Spares :
    (conn code : ℕ) (r : Relay)
    → (r.connection conn).name ≡ none
    → Spares conn r (refuse conn code r)
unfolding refuse
refuse-Spares conn code r e =
    let counted = Spares-count _ r in
    Spares-trans counted (fail-Spares _ _ _ (counted.names conn ∙ e))

contend-refuse :
    (env : Environment) (conn i : ℕ) (name node_key domain_key : List ℕ) (not_after : ℕ) (r : Relay)
    → find_service name r.services ≡ some i
    → (r.connection i).closed ≡ false
    → same_key (r.connection i).node_key node_key ≡ false
    → (r.connection conn).name ≡ none
    → Spares conn r (contend env conn name node_key domain_key not_after r)
unfolding contend
contend-refuse env conn i name node_key domain_key not_after r found live other nameless =
    rw (contend, found) (rw (live, other) (refuse-Spares conn _ r nameless))

module _ {Grant : Type 0} (trust : Trust Grant) where
  -- The chain of the proof ends at another node's key than the one that the connection `i` has proved.
  abbrev pub IsRival : ℕ → ServiceAuth Grant → List ℕ → ℕ → Relay → Type 0
  IsRival now proof root i r =
      (subject : Subject)
      → trust.verify_chain proof.chain root (now / 1000) proof.name ≡ ok subject
      → same_key (r.connection i).node_key subject.key ≡ false

  verify_service-Spares :
      (env : Environment) (conn i : ℕ) (proof : ServiceAuth Grant) (key : Option (List ℕ))
      (r : Relay)
      → find_service proof.name r.services ≡ some i
      → (r.connection i).closed ≡ false
      → (r.connection conn).name ≡ none
      → ((root : List ℕ) → key ≡ some root → IsRival env.now proof root i r)
      → Spares conn r (verify_service trust env conn proof key r)
  unfolding verify_service
  verify_service-Spares env conn i proof none r found live nameless rival =
      Spares-if (r.connection conn).closed (Spares-refl r) (refuse-Spares conn _ r nameless)
  verify_service-Spares env conn i proof (some root) r found live nameless rival =
      elim (Bool-cases (r.connection conn).closed) [
        | inl c ↦ rw c (Spares-refl r)
        | inr c ↦
            rw c
              (elim (Result-cases
                (trust.verify_chain proof.chain root (env.now / 1000) proof.name)) [
                  | inr (e, f) ↦ rw f (refuse-Spares conn _ r nameless)
                  | inl (subject, f) ↦ rw f (
                      Spares-if (is_proof trust (r.connection conn).challenge proof subject.key)
                        (contend-refuse env conn i _ subject.key root subject.not_after r found live
                          (rival root refl subject f) nameless)
                        (refuse-Spares conn _ r nameless))
                ])
      ]

  -- A name stays with the live connection that serves it: whatever proof another connection, which
  -- serves nothing yet, gives for the name, and whatever domain key is found, if the proof's chain does
  -- not end at the key of the node that serves it, that node is still registered and its connection
  -- still open.
  pub verify_service-incumbent :
      (env : Environment) (conn i : ℕ) (proof : ServiceAuth Grant) (key : Option (List ℕ))
      (r : Relay)
      → find_service proof.name r.services ≡ some i
      → (r.connection i).closed ≡ false
      → i ≢ conn
      → (r.connection conn).name ≡ none
      → ((root : List ℕ) → key ≡ some root → IsRival env.now proof root i r)
      → (find_service proof.name (verify_service trust env conn proof key r).services ≡ some i)
        × (((verify_service trust env conn proof key r).connection i).closed ≡ false)
  verify_service-incumbent env conn i proof key r found live ne nameless rival =
      let spared = verify_service-Spares env conn i proof key r found live nameless rival in
      (ap (find_service proof.name) spared.served ∙ found, spared.alive i ne ∙ live)
