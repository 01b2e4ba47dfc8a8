-- ===== src/Transformer/Flow/Cancelled.antt =====
-- A packet that arrives while the context is cancelled.
use pcap_sidecar.Common.{
  ℕ, zero, suc, ◌+◌, ◌%◌, ◌^◌, ◌<◌, ◌≡◌, refl, ap, ap₂, ◌∙◌, true, false, arith, nat_eq,
}
use pcap_sidecar.Transformer.Flow.{Transformer, done_one, roll, rollback_translation, apply}
use pcap_sidecar.Transformer.Flow.Balance.{done_one-positive}

module _ {Packet Translation : Type 0} where
  -- `t` with its two counters replaced.
  abbrev counted : Transformer Packet Translation → ℕ → ℕ → Transformer Packet Translation
  counted t w c = record t { wg = w; counter = c }

  done_one-counted :
      (t : Transformer Packet Translation) (w c : ℕ)
      → done_one (counted t (w + 1) ((c + 1) % 2 ^ 64)) ≡ counted t w (c % 2 ^ 64)
  done_one-counted t w c =
      done_one-positive (counted t (w + 1) ((c + 1) % 2 ^ 64)) (ground arith)
      ∙ ap₂ (counted t) (omega arith) (omega arith)

  roll-counted :
      (k : ℕ) (t : Transformer Packet Translation) (w c : ℕ)
      → roll k (counted t (w + k) ((c + k) % 2 ^ 64)) ≡ counted t w (c % 2 ^ 64)
  unfolding roll
  roll-counted zero t w c = ap₂ (counted t) (omega arith) (omega arith)
  roll-counted (suc k) t w c =
      ap (λ s. roll k (done_one s))
        (ap₂ (counted t) (omega arith) (ap (λ x. x % 2 ^ 64) (omega arith)))
      ∙ ap (roll k) (done_one-counted t (w + k) (c + k))
      ∙ roll-counted k t w c

  apply-meanwhile :
      (packet : Packet) (t : Transformer Packet Translation)
      → t.ctx_done ≡ false
      → apply true packet t ≡ (
        roll t.num_writers (
            counted
              (record t { ctx_done = true })
              (t.wg + t.num_writers)
              ((t.counter + t.num_writers) % 2 ^ 64)),
        true,
      )
  unfolding apply rollback_translation
  apply-meanwhile packet t e = simp e refl

  -- When the context is cancelled between the commitment of `Apply` and the strategy, an error is
  -- returned and everything is rolled back: the state is the one before, cancelled. The counter is
  -- one of 64 bits.
  pub apply-cancelled :
      (packet : Packet) (t : Transformer Packet Translation)
      → t.ctx_done ≡ false
      → t.counter < 2 ^ 64
      → apply true packet t ≡ (record t { ctx_done = true }, true)
  apply-cancelled packet t d c =
      apply-meanwhile packet t d
      ∙ ap (λ s. (s, true))
          (roll-counted t.num_writers (record t { ctx_done = true }) t.wg t.counter
            ∙ ap (counted (record t { ctx_done = true }) t.wg) (omega (arith, c)))
