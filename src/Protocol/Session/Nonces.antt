-- ===== src/Protocol/Session/Nonces.antt =====
-- The keys and nonces of one direction.
use tnp.Prelude.{
  ℕ, zero, suc, ◌≤◌, ◌<◌, ◌≡◌, ◌≢◌, ◌⊎◌, true, List, [], ◌∷◌, take, replicate, All, ok, err,
}
use tnp.Protocol.Noise.{Aead, noise_nonce}
use tnp.Protocol.Session.{Session, counter_of}
use tnp.Protocol.Session.Channel.{Send, data_of, update_of, close_of, send}

abbrev pub NoRepeat {ℓ} : {A : Type ℓ} → List A → Type ℓ
NoRepeat [] = Unit
NoRepeat (x ∷ xs) = All (λ y. y ≢ x) xs × NoRepeat xs

-- The number of the key after a send.
abbrev next_number : Send → ℕ → ℕ
next_number (update_of h) k = suc k
next_number (data_of p h) k = k
next_number (close_of h) k = k

-- Later than the counter `c` under the key number `k`.
abbrev From : ℕ → ℕ → ℕ → ℕ → Type 0
From k c m d = (k < m) ⊎ ((k ≡ m) × (c ≤ d))

module _ (a : Aead) where
  -- The key in use and the counter, of every record that a run of sends writes.
  unfoldable pub nonces : Session → List Send → List (List ℕ × ℕ)
  nonces s [] = []
  nonces s (ev ∷ evs) = elim (send a s ev) [
    | ok (r, s') ↦ (s.send_key, counter_of r) ∷ nonces s' evs
    | err e ↦ nonces s evs
  ]

  -- REKEY of the Noise specification: the first 32 bytes of 32 zeros sealed under the largest nonce.
  abbrev pub next_key : List ℕ → List ℕ
  next_key k = take 32 (a.aead_seal k (noise_nonce 0xffff_ffff_ffff_ffff) [] (replicate 32 0))

  -- The key after some updates.
  unfoldable pub key_after : List ℕ → ℕ → List ℕ
  key_after k zero = k
  key_after k (suc n) = next_key (key_after k n)

  -- The keys of so many updates differ, as they do for a cipher but with negligible probability.
  abbrev pub AreFresh : List ℕ → ℕ → Type 0
  AreFresh k most = (m n : ℕ) → m ≤ most → n ≤ most → key_after k m ≡ key_after k n → m ≡ n

module _ (a : Aead) (key : List ℕ) (most : ℕ) where
  -- A key and a counter that come at the key number `k` and the counter `c`, or later.
  Later : ℕ → ℕ → List ℕ × ℕ → Type 0
  Later k c x = (m : ℕ) × (m ≤ most) × (x.0 ≡ key_after a key m) × From k c m x.1

  -- The session uses the key number `k`, or is closed.
  AtKey : ℕ → Session → Type 0
  AtKey k s = (s.send_key ≡ key_after a key k) ⊎ (s.sent_close ≡ true)
