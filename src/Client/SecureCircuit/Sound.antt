-- ===== src/Client/SecureCircuit/Sound.antt =====
-- packages/client/src/overlay/secure-circuit.ts: the invariant of one end of a circuit.
use tnp.Prelude.{
  if_both, whole, ℕ, suc, ◌≤◌, ◌≡◌, refl, Bool, true, false, ◌||◌, ◌&&◌, Option, some, none, List,
  [], ◌∷◌, ◌==◌, if◌then◌else◌, inl, arith,
}
use tnp.Protocol.Constants.{stream_window_initial}
use tnp.Protocol.FlowControl.{FlowWindow, debit, credit}
use tnp.Protocol.FrameType.{circuit_destroy}
use tnp.Protocol.Session.{Session, SessionError}
use tnp.Client.SecureCircuit.{
  SecureCircuit, Role, Call, is_client, offer, destroy_frame, deliver, finish, Delivery, on_close,
  event, replay,
}
use tnp.Protocol.Noise.{Aead}
use tnp.Protocol.Overlay.Stream.{reset}
use tnp.Client.SecureCircuit.{CircuitLink, new_circuit}
use tnp.Client.SecureCircuit.Sending.{reset_stream}
use tnp.Client.SecureCircuit.Receiving.{Operation, run}
use tnp.Client.SecureCircuit.Kept.{send_message-keep, send_session_close-keep}
use tnp.Client.SecureCircuit.Kept.Operations.{IsInvariant, is_end}
use tnp.Client.SecureCircuit.Kept.Histories.{run-keep}

unfoldable pub count_of {ℓ} : {A : Type ℓ} → (A → Bool) → List A → ℕ
count_of p [] = 0
count_of p (x ∷ l) = let n = count_of p l in if p x then suc n else n

abbrev pub ends : SecureCircuit → ℕ
ends c = count_of is_end c.calls

abbrev pub destroys : SecureCircuit → ℕ
destroys c = count_of (λ f. f.type == circuit_destroy) c.frames

abbrev pub bit : Bool → ℕ
bit true = 1
bit false = 0

-- With how often the owner was told of the end, and the relay.
pub record IsSoundWith (w : FlowWindow) (r e d : ℕ) (is_done : Bool) : Type 0 where
  pub window : w.available ≤ stream_window_initial
  pub size : w.initial ≡ stream_window_initial
  pub received : r ≤ stream_window_initial
  pub once : e ≡ bit is_done
  pub destroyed : d ≤ e

-- The send window and what may still be received stay within the initial window; the owner has been
-- told of the end once if the circuit is done and not at all before; and the relay has been told once
-- at most, and not before.
abbrev pub IsSound : SecureCircuit → Type 0
IsSound c = IsSoundWith c.send_window c.received_ungranted (ends c) (destroys c) c.done

-- Between the test of `finish` and its last call.
record IsEndingWith (w : FlowWindow) (r e d : ℕ) (is_done : Bool) : Type 0 where
  pub window : w.available ≤ stream_window_initial
  pub size : w.initial ≡ stream_window_initial
  pub received : r ≤ stream_window_initial
  pub before : e ≡ 0
  pub ending : is_done ≡ true
  pub destroyed : d ≤ 1

abbrev IsEnding : SecureCircuit → Type 0
IsEnding c = IsEndingWith c.send_window c.received_ungranted (ends c) (destroys c) c.done

deliver-IsEnding : (c : SecureCircuit) (d : Delivery) → IsEnding c → IsEnding (deliver d c)
unfolding deliver count_of is_end
deliver-IsEnding c d s = if_both IsEnding c.bound (λ b. s) (λ b. s)

pub finish-IsSound :
    (c : SecureCircuit) (e : Option SessionError) (notify force : Bool)
    → IsSound c
    → IsSound (finish e notify force c)
unfolding finish deliver count_of is_end
finish-IsSound c e notify force s =
    if_both IsSound c.done (λ d. s)
      (λ d.
        let none_yet : ends c ≡ 0 = ground arith in
        let ended : IsEnding (
            if notify && (is_client c.role || force)
            then offer (destroy_frame c.id) (record c { done = true })
            else record c { done = true }) =
          if_both IsEnding (notify && (is_client c.role || force))
            (λ b. record {
              window = s.window;
              size = s.size;
              received = s.received;
              before = none_yet;
              ending = refl;
              destroyed = ground arith;
            })
            (λ b. record {
              window = s.window;
              size = s.size;
              received = s.received;
              before = none_yet;
              ending = refl;
              destroyed = ground arith;
            }) in
        let told = deliver-IsEnding _ (on_close e) ended in
        record {
          window = told.window;
          size = told.size;
          received = told.received;
          once = ground arith;
          destroyed = ground arith;
        })

replay-ends : (b : List Delivery) (k : List Call) → count_of is_end (replay b k) ≡ count_of is_end k
unfolding replay count_of is_end
replay-ends [] k = refl
replay-ends (d ∷ b) k = replay-ends b (event d ∷ k)

call-ends :
    (k : Call) (l : List Call) → is_end k ≡ false → count_of is_end (k ∷ l) ≡ count_of is_end l
unfolding count_of
call-ends k l h = rw h refl

invariant : IsInvariant IsSound
unfolding count_of debit credit
invariant = record {
  sending = record {
    at_session = λ c state s. s;
    at_record = λ c sealed s. s;
    at_failure = λ c e notify force s. finish-IsSound c (some e) notify force s;
  };
  at_started = λ c s. s;
  at_sent_opened = λ c s. s;
  at_sent_fin = λ c s. s;
  at_sent_close = λ c s. s;
  at_peer_close = λ c s. s;
  at_consumed = λ c n s. s;
  at_backlog = λ c b s. s;
  at_bound = λ c s. rw (replay-ends c.backlog c.calls) s;
  at_call = λ c k h s. rw (call-ends k c.calls h) s;
  at_debit = λ c n s. record {
    window = ground arith;
    size = ground arith;
    received = s.received;
    once = s.once;
    destroyed = s.destroyed;
  };
  at_credit = λ c n s. record {
    window = ground arith;
    size = s.size;
    received = s.received;
    once = s.once;
    destroyed = s.destroyed;
  };
  at_received = λ c n h s. record {
    window = s.window;
    size = s.size;
    received = h;
    once = s.once;
    destroyed = s.destroyed;
  };
  at_granted = λ c n s. record {
    window = s.window;
    size = s.size;
    received = ground arith;
    once = s.once;
    destroyed = s.destroyed;
  };
  at_clean = λ c notify f s. finish-IsSound c none notify false s;
}

reset_stream-IsSound :
    (a : Aead) (link : CircuitLink) (code : ℕ) (c : SecureCircuit)
    → IsSound c
    → IsSound (reset_stream a link code c)
unfolding reset_stream
reset_stream-IsSound a link code c s =
    if_both IsSound c.done (λ d. s)
      (λ d. finish-IsSound _ none true true (
        send_session_close-keep a IsSound invariant.sending link (λ c s. s) _
          (send_message-keep a IsSound invariant.sending link (reset (whole code)) c s)))

-- Whatever an owner, a peer, the relay and the connection do, in whatever order, an end of a circuit
-- keeps its send window and what it still lets the peer send within the initial window; it has told
-- its owner of the end once if it is done and not at all before; and it sends the relay at most one
-- CIRCUIT_DESTROY, not before it is done.
pub run-IsSound :
    (a : Aead) (id : ℕ) (role : Role) (state : Session) (history : List (CircuitLink × Operation))
    → IsSound (run a history (new_circuit id role state))
unfolding new_circuit count_of
run-IsSound a id role state history =
    run-keep a IsSound invariant (λ c s. s) history (inl (reset_stream-IsSound a))
      (new_circuit id role state)
      (record {
        window = omega arith;
        size = refl;
        received = omega arith;
        once = refl;
        destroyed = omega arith;
      })
