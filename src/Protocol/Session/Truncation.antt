-- ===== src/Protocol/Session/Truncation.antt =====
-- The end of a stream: it counts as clean only after the peer's authenticated close.
use tnp.Prelude.{
  ℕ, ◌+◌, ◌≡◌, refl, ◌⊎◌, inl, inr, true, some, List, [], ◌∷◌, arith, drop, Result, ok, err,
  Result-cases, Option-cases, Bool-cases,
}
use tnp.Protocol.Noise.{Aead, decrypt_with_ad}
use tnp.Protocol.ErrorCode.{truncated}
use tnp.Protocol.Session.{
  Session, SessionError, Thrown, session, OpenedRecord, close, RecordHeader, ResolvedLimits, create,
  frame_associated_data, open_inner, open_record, open_next, poisoned, poison, counter_of,
  transport_ended, session_error,
}

abbrev pub Any {ℓ} : {A : Type ℓ} → (A → Type 0) → List A → Type 0
Any P [] = ⊥
Any P (x ∷ xs) = P x ⊎ Any P xs

ended-cases :
    (s : Session)
    → (s.received_close ≡ true)
      ⊎ ((e : SessionError) × ((transport_ended s).0 ≡ err (session e))
          × ((s.failed ≡ some e) ⊎ (e.code ≡ truncated)))
unfolding transport_ended
ended-cases s = elim (Option-cases s.failed) [
  | inr (x, f) ↦ inr (x, ground arith, inl f)
  | inl f ↦ elim (Bool-cases s.received_close) [
    | inl c ↦ inl c
    | inr c ↦ inr (
      session_error "stream ended without an authenticated close" truncated,
      ground arith,
      inr refl,
    )
  ]
]

module _ (a : Aead) where
  -- Records opened one after the other, whatever each call returns or throws.
  unfoldable pub open_many :
      Session → List (List ℕ × RecordHeader) → List (Result Thrown OpenedRecord) × Session
  open_many s [] = ([], s)
  open_many s ((r, h) ∷ rest) =
      let (res, s') = open_next a s r h in
      let (later, last) = open_many s' rest in (res ∷ later, last)

  abbrev Closes : Session → Result SessionError OpenedRecord × Session → Type 0
  Closes s (res, s') = (s'.received_close ≡ s.received_close) ⊎ (res ≡ ok close)

  open_inner-Closes : (s : Session) (inner : List ℕ) → Closes s (open_inner a s inner)
  unfolding open_inner
  open_inner-Closes s inner = ground arith

  open_record-Closes : (s : Session) (r ad : List ℕ) → Closes s (open_record a s r ad)
  unfolding open_record
  open_record-Closes s r ad =
      elim (Option-cases (decrypt_with_ad a s.receive_key (counter_of r) ad (drop 8 r))) [
        | inl x ↦ ground arith
        | inr (inner, x) ↦
            ground (
              arith,
              open_inner-Closes (record s { receive_counter = s.receive_counter + 1 }) inner,
            )
      ]

  poisoned-Closes :
      (s : Session) (res : Result SessionError OpenedRecord × Session)
      → Closes s res
      → ((poisoned res).1.received_close ≡ s.received_close) ⊎ ((poisoned res).0 ≡ ok close)
  unfolding poisoned poison
  poisoned-Closes s (ok o, t) c = ground arith
  poisoned-Closes s (err e, t) c = ground arith

  open_next-Closes :
      (s : Session) (r : List ℕ) (h : RecordHeader)
      → ((open_next a s r h).1.received_close ≡ s.received_close)
        ⊎ ((open_next a s r h).0 ≡ ok close)
  unfolding open_next
  open_next-Closes s r h = elim (Option-cases s.failed) [
    | inr (x, f) ↦ ground arith
    | inl f ↦ elim (Result-cases (frame_associated_data h)) [
      | inr (x, g) ↦ ground arith
      | inl (ad, g) ↦
          ground (arith, poisoned-Closes s (open_record a s r ad) (open_record-Closes s r ad))
    ]
  ]

  open_many-closed :
      (s : Session) (rs : List (List ℕ × RecordHeader))
      → (open_many s rs).1.received_close ≡ true
      → (s.received_close ≡ true) ⊎ Any (λ res. res ≡ ok close) (open_many s rs).0
  unfolding open_many
  open_many-closed s [] e = inl e
  open_many-closed s ((r, h) ∷ rs) e = elim (open_many-closed (open_next a s r h).1 rs e) [
    | inr later ↦ inr (inr later)
    | inl closed ↦ elim (open_next-Closes s r h) [
      | inl same ↦ inl (ground arith)
      | inr here ↦ inr (inl here)
    ]
  ]

  -- Truncation is noticed: on a session that a handshake has just created, whatever records arrive,
  -- the end of the transport is accepted only if one of them was opened as the peer's close; in every
  -- other case the session fails (with TRUNCATED, unless a record failed it before).
  pub transport_ended-open_many :
      (send_key receive_key hash : List ℕ) (limits : ResolvedLimits)
      (rs : List (List ℕ × RecordHeader))
      → Any (λ res. res ≡ ok close) (open_many (create send_key receive_key hash limits) rs).0
        ⊎ ((e : SessionError) × ((transport_ended
                (open_many (create send_key receive_key hash limits) rs).1).0
              ≡ err (session e))
            × (((open_many (create send_key receive_key hash limits) rs).1.failed ≡ some e)
                ⊎ (e.code ≡ truncated)))
  unfolding create
  transport_ended-open_many send_key receive_key hash limits rs =
      let start = create send_key receive_key hash limits in
      elim (ended-cases (open_many start rs).1) [
        | inr failure ↦ inr failure
        | inl closed ↦ elim (open_many-closed start rs closed) [
          | inl never ↦ cc
          | inr opened ↦ inl opened
        ]
      ]
