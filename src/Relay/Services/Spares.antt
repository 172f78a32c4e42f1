-- ===== src/Relay/Services/Spares.antt =====
-- Operations that leave the services, the names and every other connection's life alone.
use tnp.Prelude.{
  ℕ, ◌≡◌, refl, ◌≢◌, ◌∙◌, Bool, true, false, ◌==◌, if◌then◌else◌, none, List, [], ◌∷◌, Bool-cases,
  inl, inr, ==→eq, ap, sym,
}
use tnp.Prelude.Counts.{decrement}
use tnp.Relay.Circuits.{
  send_to, delete_from, settle_pending, release_share, tell, Notify, notify_client, notify_service,
  notify_both, remove_circuit, owned_by,
}
use tnp.Relay.Connections.{
  remove_all, deregister, give_up, on_transport_closed, close_connection, fail,
}
use tnp.Relay.State.{Relay, Connection, Circuit, Counters, Output, set_connection, count, output}
use tnp.Relay.Ips.{IpTable}

-- The connection `conn` may close; the other connections, the names and the services stay.
pub record Spares (conn : ℕ) (r s : Relay) : Type 0 where
  pub served : s.services ≡ r.services
  pub names : (j : ℕ) → (s.connection j).name ≡ (r.connection j).name
  pub alive : (j : ℕ) → j ≢ conn → (s.connection j).closed ≡ (r.connection j).closed

module _ {conn : ℕ} where
  pub Spares-refl : (r : Relay) → Spares conn r r
  Spares-refl r = record { served = refl; names = λ j. refl; alive = λ j ne. refl }

  pub Spares-trans : {r s t : Relay} → Spares conn r s → Spares conn s t → Spares conn r t
  Spares-trans h k = record {
    served = k.served ∙ h.served;
    names = λ j. k.names j ∙ h.names j;
    alive = λ j ne. k.alive j ne ∙ h.alive j ne;
  }

  pub Spares-if :
      {r s t : Relay} (b : Bool)
      → Spares conn r s
      → Spares conn r t
      → Spares conn r (if b then s else t)
  Spares-if true h k = h
  Spares-if false h k = k

  Spares-set_connection :
      (i : ℕ) (c : Connection) (r : Relay)
      → c.name ≡ (r.connection i).name
      → (i ≢ conn → c.closed ≡ (r.connection i).closed)
      → Spares conn r (set_connection i c r)
  unfolding set_connection
  Spares-set_connection i c r n a = record {
    served = refl;
    names = λ j. elim (Bool-cases (i == j)) [
      | inl e ↦ rw e (n ∙ ap (λ k. (r.connection k).name) (==→eq i j e))
      | inr e ↦ rw e refl
    ];
    alive = λ j ne. elim (Bool-cases (i == j)) [
      | inl e ↦
          let same = ==→eq i j e in
          rw e (a (λ t. ne (sym same ∙ t)) ∙ ap (λ k. (r.connection k).closed) same)
      | inr e ↦ rw e refl
    ];
  }

  pub Spares-count : (f : Counters → Counters) (r : Relay) → Spares conn r (count f r)
  unfolding count
  Spares-count f r = record { served = refl; names = λ j. refl; alive = λ j ne. refl }

  pub Spares-output : (o : Output) (r : Relay) → Spares conn r (output o r)
  unfolding output
  Spares-output o r = record { served = refl; names = λ j. refl; alive = λ j ne. refl }

  Spares-tables :
      (ips : IpTable) (open_ones : List ℕ) (r : Relay)
      → Spares conn r (record r { ips = ips; connections = open_ones })
  Spares-tables ips open_ones r = record { served = refl; names = λ j. refl; alive = λ j ne. refl }

  Spares-decrement :
      (r : Relay) → Spares conn r (record r { circuit_count = decrement r.circuit_count })
  Spares-decrement r = record { served = refl; names = λ j. refl; alive = λ j ne. refl }

  Spares-addresses :
      (share : ℕ → List ℕ → ℕ) (r : Relay) → Spares conn r (record r { ip_service = share })
  Spares-addresses share r = record { served = refl; names = λ j. refl; alive = λ j ne. refl }

  send_to-Spares :
      (to type id : ℕ) (payload : List ℕ) (r : Relay) → Spares conn r (send_to to type id payload r)
  unfolding send_to
  send_to-Spares to type id payload r =
      Spares-if (r.connection to).closed (Spares-refl r) (Spares-output _ r)

  delete_from-Spares : (i id : ℕ) (r : Relay) → Spares conn r (delete_from i id r)
  unfolding delete_from
  delete_from-Spares i id r = Spares-set_connection i _ r refl (λ ne. refl)

  settle_pending-Spares : (i : ℕ) (r : Relay) → Spares conn r (settle_pending i r)
  unfolding settle_pending
  settle_pending-Spares i r = Spares-set_connection i _ r refl (λ ne. refl)

  release_share-Spares : (c : Circuit) (r : Relay) → Spares conn r (release_share c r)
  unfolding release_share set_connection
  release_share-Spares c r =
      Spares-trans (Spares-set_connection c.client _ r refl (λ ne. refl)) (Spares-addresses _ _)

  tell-Spares :
      (n : Notify) (reason : ℕ) (c : Circuit) (r : Relay) → Spares conn r (tell n reason c r)
  unfolding tell
  tell-Spares notify_client reason c r = send_to-Spares _ _ _ _ r
  tell-Spares notify_service reason c r = send_to-Spares _ _ _ _ r
  tell-Spares notify_both reason c r =
      Spares-trans (send_to-Spares _ _ _ _ r) (send_to-Spares _ _ _ _ _)

  remove_circuit-Spares :
      (k : ℕ) (n : Notify) (reason : ℕ) (r : Relay) → Spares conn r (remove_circuit k n reason r)
  unfolding remove_circuit
  remove_circuit-Spares k n reason r =
      let c = r.circuit k in
      Spares-if _ (Spares-refl r) (
        Spares-trans
          (Spares-if (owned_by r c.client c.client_id k) (delete_from-Spares c.client c.client_id r)
            (Spares-refl r))
          (Spares-trans
            (Spares-if (owned_by r c.service c.service_id k)
              (delete_from-Spares c.service c.service_id _) (Spares-refl _))
            (Spares-trans
              (Spares-if c.open_circuit (Spares-refl _) (settle_pending-Spares c.client _))
              (Spares-trans (Spares-decrement _)
                (Spares-trans (release_share-Spares c _) (tell-Spares n reason c _))))))

  remove_all-Spares : (i : ℕ) (ks : List ℕ) (r : Relay) → Spares conn r (remove_all i ks r)
  unfolding remove_all
  remove_all-Spares i [] r = Spares-refl r
  remove_all-Spares i (k ∷ ks) r =
      Spares-trans (remove_circuit-Spares k _ _ r) (remove_all-Spares i ks _)

  -- A connection without a name has no service to give up.
  deregister_nameless :
      (r : Relay) → (r.connection conn).name ≡ none → Spares conn r (deregister conn r)
  unfolding deregister give_up
  deregister_nameless r e = rw e (Spares-if _ (Spares-refl r) (Spares-refl r))

  on_transport_closed-Spares :
      (r : Relay) → (r.connection conn).name ≡ none → Spares conn r (on_transport_closed conn r)
  unfolding on_transport_closed
  on_transport_closed-Spares r e =
      let closing = Spares-trans (Spares-tables _ _ r) (
        Spares-set_connection conn (record (r.connection conn) { closed = true }) _ refl
          (λ ne. absurd (ne refl))) in
      Spares-if _ (Spares-refl r) (
        Spares-trans closing (
          Spares-trans (deregister_nameless _ (closing.names conn ∙ e)) (
            Spares-trans (Spares-set_connection conn _ _ refl (λ ne. refl))
              (remove_all-Spares conn _ _))))

  close_connection-Spares :
      (code : ℕ) (r : Relay)
      → (r.connection conn).name ≡ none
      → Spares conn r (close_connection conn code r)
  unfolding close_connection
  close_connection-Spares code r e =
      let told = Spares-output _ r in
      Spares-if _ (Spares-refl r)
        (Spares-trans told (on_transport_closed-Spares _ (told.names conn ∙ e)))

  -- A connection without a name that fails takes nothing with it but itself.
  pub fail-Spares :
      (code close_code : ℕ) (r : Relay)
      → (r.connection conn).name ≡ none
      → Spares conn r (fail conn code close_code r)
  unfolding fail
  fail-Spares code close_code r e =
      let told =
        Spares-trans (Spares-if (code == _) (Spares-count _ r) (Spares-refl r))
          (Spares-output _ _) in
      Spares-if _ (Spares-refl r)
        (Spares-trans told (close_connection-Spares close_code _ (told.names conn ∙ e)))
