-- ===== src/Client/SecureCircuit/Honest.antt =====
-- packages/client/src/overlay/secure-circuit.ts: what an end of a circuit tells its owner of its end, and
-- the relay.
use tnp.Prelude.{
  ℕ, ◌≤◌, ◌<◌, ◌≡◌, refl, ap, ◌∙◌, ◌+◌, Bool, true, false, ◌&&◌, ◌||◌, some, none, List, [], ◌∷◌,
  if_both, arith,
}
use tnp.Protocol.Session.{Session, SessionError}
use tnp.Client.SecureCircuit.{
  SecureCircuit, Role, Call, event, on_writable, on_open, on_opened, on_done, on_close, Delivery,
  is_client, deliver, finish, replay, new_circuit, offer, destroy_frame, call,
}
use tnp.Client.SecureCircuit.Kept.Operations.{IsInvariant, is_end}
use tnp.Client.SecureCircuit.Kept.Histories.{KeptByFin}
use tnp.Client.SecureCircuit.Sound.{count_of, destroys}

unfoldable pub is_clean : Call → Bool
is_clean (on_done none) = true
is_clean k = false

unfoldable pub is_failure : Call → Bool
is_failure (on_done (some e)) = true
is_failure k = false

abbrev pub clean_ends : SecureCircuit → ℕ
clean_ends c = count_of is_clean c.calls

abbrev pub failures : SecureCircuit → ℕ
failures c = count_of is_failure c.calls

pub record IsHonestWith (owed : ℕ) (role r : Role) (fin : Bool) (n f d : ℕ) : Type 0 where
  pub role_kept : r ≡ role
  pub clean : 0 < n → fin ≡ true
  pub destroyed : is_client role ≡ false → d ≤ owed + f

-- With the failures that are still to be told.
abbrev IsHonestBut : ℕ → Role → SecureCircuit → Type 0
IsHonestBut owed role c =
    IsHonestWith owed role c.role c.peer_fin (clean_ends c) (failures c) (destroys c)

-- A clean end is told only if the peer has finished, and the end of a service node sends a
-- CIRCUIT_DESTROY only with a failure.
abbrev pub IsHonest : Role → SecureCircuit → Type 0
IsHonest role c = IsHonestBut 0 role c

deliver-IsHonest :
    (owed : ℕ) (role : Role) (c : SecureCircuit) (d : Delivery)
    → IsHonestBut owed role c
    → IsHonestBut owed role (deliver d c)
unfolding deliver count_of is_clean is_failure
deliver-IsHonest owed role c d s = if_both (IsHonestBut owed role) c.bound (λ b. s) (λ b. s)

-- The call that tells a failure pays for the frame that may have been sent.
told-IsHonest :
    (role : Role) (c : SecureCircuit) (e : SessionError)
    → IsHonestBut 1 role c
    → IsHonest role (call (on_done (some e)) (deliver (on_close (some e)) c))
unfolding count_of is_clean is_failure
told-IsHonest role c e s =
    let t = deliver-IsHonest 1 role c (on_close (some e)) s in
    record {
      role_kept = t.role_kept;
      clean = t.clean;
      destroyed = λ h. let d = t.destroyed h in ground arith;
    }

failed-IsHonest :
    (role : Role) (c : SecureCircuit) (e : SessionError) (notify force : Bool)
    → IsHonest role c
    → IsHonest role (finish (some e) notify force c)
unfolding finish count_of
failed-IsHonest role c e notify force s =
    if_both (IsHonest role) c.done (λ d. s)
      (λ d. told-IsHonest role _ e (
        if_both (IsHonestBut 1 role) (notify && (is_client c.role || force))
          (λ n. record {
            role_kept = s.role_kept;
            clean = s.clean;
            destroyed = λ h. let d = s.destroyed h in ground arith;
          })
          (λ n. record {
            role_kept = s.role_kept;
            clean = s.clean;
            destroyed = λ h. let d = s.destroyed h in ground arith;
          })))

deliver-peer_fin : (c : SecureCircuit) (d : Delivery) → (deliver d c).peer_fin ≡ c.peer_fin
unfolding deliver
deliver-peer_fin c d =
    if_both (λ (c' : SecureCircuit). c'.peer_fin ≡ c.peer_fin) c.bound (λ b. refl) (λ b. refl)

told_end-IsHonest :
    (role : Role) (c : SecureCircuit)
    → IsHonest role c
    → c.peer_fin ≡ true
    → IsHonest role (call (on_done none) (deliver (on_close none) c))
unfolding count_of is_clean is_failure
told_end-IsHonest role c s f =
    let t = deliver-IsHonest 0 role c (on_close none) s in
    record {
      role_kept = t.role_kept;
      clean = λ h. deliver-peer_fin c (on_close none) ∙ f;
      destroyed = t.destroyed;
    }

unforced :
    (notify is_client : Bool) → (notify && (is_client || false)) ≡ true → is_client ≡ false → ⊥
unforced notify true n h = ground arith
unforced true false n h = ground arith
unforced false false n h = ground arith

clean-IsHonest :
    (role : Role) (c : SecureCircuit) (notify : Bool)
    → c.peer_fin ≡ true
    → IsHonest role c
    → IsHonest role (finish none notify false c)
unfolding finish count_of is_clean is_failure
clean-IsHonest role c notify f s =
    if_both (IsHonest role) c.done (λ d. s)
      (λ d.
        let c1 = record c { done = true } in
        if_both (λ c2. IsHonest role (call (on_done none) (deliver (on_close none) c2)))
          (notify && (is_client c.role || false))
          (λ n.
            told_end-IsHonest role (offer (destroy_frame c.id) c1)
              (record {
                role_kept = s.role_kept;
                clean = s.clean;
                destroyed = λ h.
                    absurd (unforced notify (is_client c.role) n (ap is_client s.role_kept ∙ h));
              })
              f)
          (λ n. told_end-IsHonest role c1 s f))

replay-count :
    (p : Call → Bool)
    → ((d : Delivery) → p (event d) ≡ false)
    → (b : List Delivery) (k : List Call) → count_of p (replay b k) ≡ count_of p k
unfolding replay count_of
replay-count p h [] k = refl
replay-count p h (d ∷ b) k = replay-count p h b (event d ∷ k) ∙ rw (h d) refl

call-clean :
    (k : Call) (l : List Call)
    → is_end k ≡ false
    → (count_of is_clean (k ∷ l) ≡ count_of is_clean l)
      × (count_of is_failure (k ∷ l) ≡ count_of is_failure l)
unfolding count_of is_end is_clean is_failure
call-clean (on_done e) l h = absurd (ground arith)
call-clean (event d) l h = (refl, refl)
call-clean on_writable l h = (refl, refl)
call-clean (on_open n) l h = (refl, refl)
call-clean on_opened l h = (refl, refl)

pub invariant : (role : Role) → IsInvariant (IsHonest role)
unfolding count_of is_clean is_failure
invariant role = record {
  sending = record {
    at_session = λ c state s. s;
    at_record = λ c sealed s. s;
    at_failure = λ c e notify force s. failed-IsHonest role c e notify force s;
  };
  at_started = λ c s. s;
  at_sent_opened = λ c s. s;
  at_sent_fin = λ c s. s;
  at_sent_close = λ c s. s;
  at_peer_close = λ c s. s;
  at_consumed = λ c n s. s;
  at_backlog = λ c b s. s;
  at_bound = λ c s.
      rw
        (
          replay-count is_clean (λ d. refl) c.backlog c.calls,
          replay-count is_failure (λ d. refl) c.backlog c.calls,
        )
        s;
  at_call = λ c k h s. rw (call-clean k c.calls h).0 (rw (call-clean k c.calls h).1 s);
  at_debit = λ c n s. s;
  at_credit = λ c n s. s;
  at_received = λ c n h s. s;
  at_granted = λ c n s. s;
  at_clean = λ c notify f s. clean-IsHonest role c notify f s;
}

pub fin-IsHonest : (role : Role) → KeptByFin (IsHonest role)
fin-IsHonest role c s = record {
  role_kept = s.role_kept;
  clean = λ h. refl;
  destroyed = s.destroyed;
}

pub start-IsHonest :
    (id : ℕ) (role : Role) (state : Session) → IsHonest role (new_circuit id role state)
unfolding new_circuit count_of is_clean is_failure
start-IsHonest id role state = record {
  role_kept = refl;
  clean = λ h. absurd (omega arith);
  destroyed = λ h. omega arith;
}
