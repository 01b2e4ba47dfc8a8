-- ===== src/Transformer/Flow/Weights.antt =====
-- Sums over the packets in flight and over the queues.
use pcap_sidecar.Common.{
  ℕ, ◌+◌, ◌≡◌, refl, ap, List, [], ◌∷◌, ◌++◌, arith, nat_eq, length, length-append,
}
use pcap_sidecar.Transformer.Flow.{fan_out}

-- `n` for each item.
unfoldable pub weight {ℓ} : {A : Type ℓ} → ℕ → List A → ℕ
weight n [] = 0
weight n (x ∷ xs) = n + weight n xs

unfoldable pub queued {ℓ} : {A : Type ℓ} → List (List A) → ℕ
queued [] = 0
queued (q ∷ queues) = length q + queued queues

module _ {ℓ} {A : Type ℓ} where
  pub weight-append : (n : ℕ) (xs ys : List A) → weight n (xs ++ ys) ≡ weight n xs + weight n ys
  unfolding weight
  weight-append n [] ys = omega arith
  weight-append n (x ∷ xs) ys = omega (arith, weight-append n xs ys)

  pub weight-empty : (n : ℕ) (xs : List A) → xs ≡ [] → weight n xs ≡ 0
  unfolding weight
  weight-empty n xs e = ap (weight n) e

  pub weight-one : (n : ℕ) (x : A) → weight n (x ∷ []) ≡ n
  unfolding weight
  weight-one n x = omega arith

  pub weight-cons : (n : ℕ) (x : A) (xs : List A) → weight n (x ∷ xs) ≡ n + weight n xs
  unfolding weight
  weight-cons n x xs = refl

  pub queued-append : (xs ys : List (List A)) → queued (xs ++ ys) ≡ queued xs + queued ys
  unfolding queued
  queued-append [] ys = omega arith
  queued-append (x ∷ xs) ys = omega (arith, queued-append xs ys)

  pub queued-cons : (q : List A) (xs : List (List A)) → queued (q ∷ xs) ≡ length q + queued xs
  unfolding queued
  queued-cons q xs = refl

  pub queued-fan_out :
      (x : A) (queues : List (List A)) → queued (fan_out x queues) ≡ length queues + queued queues
  unfolding queued fan_out
  queued-fan_out x [] = omega arith
  queued-fan_out x (q ∷ queues) = omega (arith, queued-fan_out x queues, length-append q (x ∷ []))

  pub length-fan_out : (x : A) (queues : List (List A)) → length (fan_out x queues) ≡ length queues
  unfolding fan_out
  length-fan_out x [] = refl
  length-fan_out x (q ∷ queues) = omega (arith, length-fan_out x queues)
