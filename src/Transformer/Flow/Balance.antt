-- ===== src/Transformer/Flow/Balance.antt =====
-- What each operation of the transformer does to the open commitments.
use pcap_sidecar.Common.{
  ℕ, zero, suc, ◌+◌, ◌-◌, ◌%◌, ◌^◌, ◌≡◌, refl, sym, ◌∙◌, subst, Bool, true, false, Option, none,
  some, [], ◌∷◌, arith, nat_eq, ◌==◌, if◌then◌else◌, length, length-append, Bool-cases,
  Option-cases, inl, inr,
}
use pcap_sidecar.Transformer.Flow.{
  Transformer, done_one, roll, rollback_translation, apply, fan_out, publish_translation,
  produce_translation, translate_packet_fn, translator_pool_fn, write_translation,
  consume_translation,
}
use pcap_sidecar.Transformer.Flow.Weights.{
  weight, queued, weight-append, weight-one, weight-cons, queued-fan_out, length-fan_out,
}

pub if-either {ℓ} :
    {A : Type ℓ} (P : A → Type 0) (c : Bool) (x y : A)
    → (c ≡ true → P x)
    → (c ≡ false → P y)
    → P (if c then x else y)
if-either P true x y f g = f refl
if-either P false x y f g = g refl

module _ {Packet Translation : Type 0} where
  -- The commitments that are open, with `extra` more than the state accounts for.
  pub record Balanced (extra : ℕ) (t : Transformer Packet Translation) : Type 0 where
    pub balance :
        t.wg
        ≡ extra
          + (weight t.num_writers t.working
              + (queued t.queues + (length t.writing + weight t.num_writers t.skipped)))
    pub safe : t.crashed ≡ false
    pub width : length t.queues ≡ t.num_writers

  pub done_one-positive :
      (t : Transformer Packet Translation)
      → (t.wg == 0) ≡ false
      → done_one t ≡ record t { wg = t.wg - 1; counter = (t.counter + (2 ^ 64 - 1)) % 2 ^ 64 }
  unfolding done_one
  done_one-positive t h = rw h refl

  pub done_one-Balanced :
      (t : Transformer Packet Translation) (k : ℕ) → Balanced (k + 1) t → Balanced k (done_one t)
  done_one-Balanced t k b =
      subst (Balanced k) (sym (done_one-positive t (ground (arith, b.balance))))
        (record { balance = omega (arith, b.balance); safe = b.safe; width = b.width })

  pub roll-Balanced :
      (j : ℕ) (t : Transformer Packet Translation) (k : ℕ)
      → Balanced (j + k) t
      → Balanced k (roll j t)
  unfolding roll
  roll-Balanced zero t k b = subst (λ e. Balanced e t) (omega arith) b
  roll-Balanced (suc j) t k b =
      roll-Balanced j (done_one t) k
        (done_one-Balanced t (j + k) (subst (λ e. Balanced e t) (omega arith) b))

  pub rollback-Balanced :
      (t : Transformer Packet Translation)
      → Balanced t.num_writers t
      → Balanced 0 (rollback_translation t)
  unfolding rollback_translation
  rollback-Balanced t b =
      roll-Balanced t.num_writers t 0 (subst (λ e. Balanced e t) (omega arith) b)

  pub skip-Balanced :
      (packet : Packet) (t : Transformer Packet Translation)
      → Balanced t.num_writers t
      → Balanced 0 (record t { skipped = packet ∷ t.skipped })
  skip-Balanced packet t b = record {
    balance = omega (arith, b.balance, weight-cons t.num_writers packet t.skipped);
    safe = b.safe;
    width = b.width;
  }

  pub fan_out-Balanced :
      (translation : Translation) (t : Transformer Packet Translation)
      → Balanced t.num_writers t
      → Balanced 0 (record t { queues = fan_out translation t.queues })
  fan_out-Balanced translation t b = record {
    balance = omega (arith, b.balance, b.width, queued-fan_out translation t.queues);
    safe = b.safe;
    width = length-fan_out translation t.queues ∙ b.width;
  }

  -- The cases of the function of the pool.
  module _ (run : Packet → Option Translation) (packet : Packet)
      (t : Transformer Packet Translation) where
    pool-done : t.ctx_done ≡ true → translator_pool_fn run packet t ≡ rollback_translation t
    unfolding translator_pool_fn
    pool-done d = simp d refl

    pool-skip :
        t.ctx_done ≡ false
        → run packet ≡ none
        → translator_pool_fn run packet t ≡ record t { skipped = packet ∷ t.skipped }
    unfolding translator_pool_fn translate_packet_fn produce_translation
    pool-skip d r = ground (arith, d, r)

    pool-publish :
        (translation : Translation)
        → t.ctx_done ≡ false
        → run packet ≡ some translation
        → translator_pool_fn run packet t ≡ record t { queues = fan_out translation t.queues }
    unfolding translator_pool_fn translate_packet_fn produce_translation publish_translation
    pool-publish translation d r = ground (arith, d, r)

    pub translator_pool_fn-Balanced :
        Balanced t.num_writers t → Balanced 0 (translator_pool_fn run packet t)
    translator_pool_fn-Balanced b = elim (Bool-cases t.ctx_done) [
      | inl d ↦ subst (Balanced 0) (sym (pool-done d)) (rollback-Balanced t b)
      | inr d ↦ elim (Option-cases (run packet)) [
        | inl r ↦ subst (Balanced 0) (sym (pool-skip d r)) (skip-Balanced packet t b)
        | inr (translation, r) ↦
            subst (Balanced 0) (sym (pool-publish translation d r))
              (fan_out-Balanced translation t b)
      ]
    ]

  -- The cases of `Apply`.
  pub apply-Balanced :
      (meanwhile : Bool) (packet : Packet) (t : Transformer Packet Translation)
      → Balanced 0 t
      → Balanced 0 (apply meanwhile packet t).0
  unfolding apply
  apply-Balanced meanwhile packet t b =
      if-either (λ (r : Transformer Packet Translation × Bool). Balanced 0 r.0) t.ctx_done _ _
        (λ d. b)
        (λ d.
          if-either (λ (r : Transformer Packet Translation × Bool). Balanced 0 r.0) meanwhile _ _
            (λ m.
              rollback-Balanced _
                (record { balance = omega (arith, b.balance); safe = b.safe; width = b.width }))
            (λ m. record {
              balance = omega (
                arith,
                b.balance,
                weight-append t.num_writers t.working (packet ∷ []),
                weight-one t.num_writers packet,
              );
              safe = b.safe;
              width = b.width;
            }))

  pub consume-Balanced :
      (index : ℕ) (translation : Translation) (t : Transformer Packet Translation)
      → Balanced 1 t
      → Balanced 0 (consume_translation index translation t)
  unfolding consume_translation
  consume-Balanced index translation t b =
      if-either (Balanced 0) t.ctx_done _ _ (λ d. done_one-Balanced t 0 b)
        (λ d. record {
          balance = omega (arith, b.balance, length-append t.writing ((index, translation) ∷ []));
          safe = b.safe;
          width = b.width;
        })

  pub write-Balanced :
      (ok : Bool) (task : ℕ × Translation) (t : Transformer Packet Translation)
      → Balanced 1 t
      → Balanced 0 (write_translation ok task t)
  unfolding write_translation
  write-Balanced ok task t b = done_one-Balanced _ 0 (
      if-either (Balanced 1) t.ctx_done _ _ (λ d. b)
        (λ d.
          if-either (Balanced 1) ok _ _
            (λ o. record { balance = b.balance; safe = b.safe; width = b.width }) (λ o. b)))
