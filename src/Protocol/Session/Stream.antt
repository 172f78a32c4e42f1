-- ===== src/Protocol/Session/Stream.antt =====
-- A whole direction: a run of sends, opened in order at the other end, and the nonces it uses.
use tnp.Prelude.{ℕ, ◌≡◌, refl, ap, inl, inr, List, [], ◌∷◌, Result, ok, err, Result-cases}
use tnp.Protocol.Noise.{Aead, IsAead}
use tnp.Protocol.Session.{Session, Thrown, OpenedRecord, open_next}
use tnp.Protocol.Session.Channel.{Send, header_of, meaning, IsSynced, send, open-send}

abbrev pub intended : List (Send × List ℕ) → List (Result Thrown OpenedRecord)
intended [] = []
intended ((ev, r) ∷ rest) = ok (meaning ev) ∷ intended rest

module _ (a : Aead) where
  -- The sends that did not throw, each with its record; a caller that gets an exception sends
  -- nothing and goes on.
  unfoldable pub send_all : Session → List Send → List (Send × List ℕ) × Session
  send_all s [] = ([], s)
  send_all s (ev ∷ evs) = elim (send a s ev) [
    | ok (r, s') ↦ let (out, last) = send_all s' evs in ((ev, r) ∷ out, last)
    | err e ↦ send_all s evs
  ]

  -- Records opened in the order in which they arrive, each in the frame that it was sent in.
  unfoldable pub open_all :
      Session → List (Send × List ℕ) → List (Result Thrown OpenedRecord) × Session
  open_all b [] = ([], b)
  open_all b ((ev, r) ∷ rest) =
      let (opened, b') = open_next a b r (header_of ev) in
      let (later, last) = open_all b' rest in (opened ∷ later, last)

  module _ (law : IsAead a) where
    -- A direction is a reliable channel: whatever is sent, with key updates and a close in any
    -- place, is opened at the other end in order, exactly as meant and nothing else, and the two
    -- ends are in step afterwards.
    pub open_all-send_all :
        (evs : List Send) (s b : Session)
        → IsSynced s b
        → ((open_all b (send_all s evs).0).0 ≡ intended (send_all s evs).0)
          × IsSynced (send_all s evs).1 (open_all b (send_all s evs).0).1
    unfolding send_all open_all
    open_all-send_all [] s b y = (refl, y)
    open_all-send_all (ev ∷ evs) s b y = elim (Result-cases (send a s ev)) [
      | inl ((r, s'), e) ↦
          let (b', opened, y') = open-send a law s s' b ev r y e in
          let (rest, synced) = open_all-send_all evs s' b' y' in
          rw (e, send_all) (rw opened (ap (λ l. ok (meaning ev) ∷ l) rest, synced))
      | inr (x, e) ↦ rw (e, send_all) (open_all-send_all evs s b y)
    ]
