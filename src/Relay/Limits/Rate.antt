-- ===== src/Relay/Limits/Rate.antt =====
-- How many tokens a bucket gives out.
use tnp.Prelude.{
  ℕ, suc, ◌+◌, ◌-◌, ◌*◌, ◌≤◌, ◌≡◌, if◌then◌else◌, List, [], ◌∷◌, arith, Bool-cases, inl, inr, sym,
  ap,
}
use mathlib.Core.Path.{subst}
use native.Mathlib.Nat.{add-mul}
use tnp.Relay.Limits.{TokenBucket, refill, take, token, create}

-- The bucket after requests at some times, and how many were granted.
unfoldable pub take_all : TokenBucket → List ℕ → ℕ × TokenBucket
take_all b [] = (0, b)
take_all b (now ∷ times) =
    let (granted, b') = take b now in
    let (more, last) = take_all b' times in (if granted then suc more else more, last)

-- Times in order, from a first one on.
abbrev pub IsOrdered : ℕ → List ℕ → Type 0
IsOrdered from [] = Unit
IsOrdered from (now ∷ times) = (from ≤ now) × IsOrdered now times

take_lem :
    (b : TokenBucket) (now : ℕ)
    → b.last ≤ now
    → b.tokens ≤ b.capacity * token
    → ((take b now).1.capacity ≡ b.capacity)
      × ((take b now).1.refill_per_second ≡ b.refill_per_second)
      × ((take b now).1.last ≡ now)
      × ((take b now).1.tokens ≤ b.capacity * token)
      × ((if (take b now).0 then token else 0) + (take b now).1.tokens
          ≤ b.tokens + (now - b.last) * b.refill_per_second)
unfolding take refill
take_lem b now o l = ground arith

abbrev pub AllUntil : ℕ → List ℕ → Type 0
AllUntil until [] = Unit
AllUntil until (now ∷ times) = (now ≤ until) × AllUntil until times

-- Time adds up.
elapsed-add : (a b c rate : ℕ) → a ≤ b → b ≤ c → (b - a) * rate + (c - b) * rate ≡ (c - a) * rate
elapsed-add a b c rate h k =
    let sum : c - a ≡ (b - a) + (c - b) = omega arith in rw sum (sym (add-mul (b - a) (c - b) rate))

take_all_bound :
    (b : TokenBucket) (times : List ℕ) (until : ℕ)
    → IsOrdered b.last times
    → AllUntil until times
    → b.last ≤ until
    → b.tokens ≤ b.capacity * token
    → (take_all b times).0 * token ≤ b.tokens + (until - b.last) * b.refill_per_second
unfolding take_all
take_all_bound b [] until o u l t = omega arith
take_all_bound b (now ∷ times) until (h, o) (k, u) l t =
    let (capacity, rate, last, full, cost) = take_lem b now h t in
    let after = (take b now).1 in
    let rest =
      take_all_bound after times until (subst (λ x. IsOrdered x times) (sym last) o) u (rw last k)
        (rw capacity full) in
    let rest' : (take_all after times).0 * token
        ≤ after.tokens + (until - now) * b.refill_per_second =
      subst (λ x. (take_all after times).0 * token ≤ after.tokens + x * b.refill_per_second)
        (ap (λ x. until - x) last)
        (subst (λ x. (take_all after times).0 * token ≤ after.tokens + (until - after.last) * x)
          rate rest) in
    elim (Bool-cases (take b now).0) [
      | inl g ↦
          rw g (
            omega
              (arith, rest', rw g at cost, elapsed-add b.last now until b.refill_per_second h k))
      | inr g ↦
          rw g (
            omega
              (arith, rest', rw g at cost, elapsed-add b.last now until b.refill_per_second h k))
    ]

-- However often a new bucket is asked, at times that never step back, up to some time it has granted no more than its
-- capacity and what flowed in since the start, a token being 10000 units and a millisecond adding as
-- many units as the rate says.
pub take_all-create :
    (capacity rate from until : ℕ) (times : List ℕ)
    → from ≤ until
    → IsOrdered from times
    → AllUntil until times
    → (take_all (create capacity rate from) times).0 * token
      ≤ capacity * token + (until - from) * rate
unfolding create
take_all-create capacity rate from until times l o u =
    take_all_bound (create capacity rate from) times until o u l (omega arith)
