-- ===== src/Transformer/Flow.antt =====
-- The commitments to write of `PcapTransformer`, with unordered output: the translator pool, the
-- queue of each writer, and the writer pool. The context is looked at several times in a row; a
-- cancellation between two looks has the effect of one before or after the whole step, but for the
-- one in `Apply`, which is an argument.
pub mod Steps
pub mod Weights
pub mod Balance
pub mod Reached
pub mod Cancelled
use pcap_sidecar.Common.{
  ℕ, zero, suc, ◌+◌, ◌-◌, ◌%◌, ◌^◌, Bool, true, false, Option, none, some, List, [], ◌∷◌, ◌++◌,
  nat_eq, ◌==◌, if◌then◌else◌,
}

module _ (Packet Translation : Type 0) where
  pub record Transformer : Type 0 where
    pub num_writers : ℕ
    pub ctx_done : Bool
    -- The counter of the `WaitGroup`, and whether it was about to go below 0, which panics.
    pub wg : ℕ
    pub crashed : Bool
    -- An int64, as a number modulo 2 ^ 64.
    pub counter : ℕ
    -- The packets in the translator pool.
    pub working : List Packet
    pub queues : List (List Translation)
    -- The tasks in the writer pool: the writer, and the translation.
    pub writing : List (ℕ × Translation)
    pub written : List (ℕ × Translation)
    -- The packets without a translation: what `Run` has answered with nil.
    pub skipped : List Packet

-- One translation into the queue of every writer.
unfoldable pub fan_out {ℓ} : {A : Type ℓ} → A → List (List A) → List (List A)
fan_out translation [] = []
fan_out translation (q ∷ queues) = (q ++ translation ∷ []) ∷ fan_out translation queues

module _ {Packet Translation : Type 0} where
  -- `t.counter.Add(-1)` and `t.wg.Done()`
  unfoldable pub done_one : Transformer Packet Translation → Transformer Packet Translation
  done_one t =
      if t.wg == 0
      then record t { crashed = true; counter = (t.counter + (2 ^ 64 - 1)) % 2 ^ 64 }
      else record t { wg = t.wg - 1; counter = (t.counter + (2 ^ 64 - 1)) % 2 ^ 64 }

  unfoldable pub roll : ℕ → Transformer Packet Translation → Transformer Packet Translation
  roll zero t = t
  roll (suc k) t = roll k (done_one t)

  -- `rollbackTranslation`
  unfoldable pub rollback_translation :
      Transformer Packet Translation → Transformer Packet Translation
  unfolding roll
  rollback_translation t = roll t.num_writers t

  -- `Apply`, with the strategy of the pool: `meanwhile` is a cancellation after the commitment. The
  -- state, and whether an error is returned.
  unfoldable pub apply :
      Bool → Packet → Transformer Packet Translation → Transformer Packet Translation × Bool
  unfolding rollback_translation
  apply meanwhile packet t =
      let t' = record t {
        wg = t.wg + t.num_writers;
        counter = (t.counter + t.num_writers) % 2 ^ 64;
      } in
      if t.ctx_done
      then (t, true)
      else if meanwhile
      then (rollback_translation (record t' { ctx_done = true }), true)
      else (record t' { working = t'.working ++ packet ∷ [] }, false)

  unfoldable pub publish_translation :
      Translation → Transformer Packet Translation → Transformer Packet Translation × Bool
  unfolding fan_out
  publish_translation translation t =
      if t.ctx_done then (t, true) else (record t { queues = fan_out translation t.queues }, false)

  -- `run` is the worker's `Run`.
  unfoldable pub produce_translation :
      (Packet → Option Translation)
      → Packet
      → Transformer Packet Translation
      → Transformer Packet Translation × Bool
  produce_translation run packet t = elim (run packet) [
    | none ↦ (record t { skipped = packet ∷ t.skipped }, false)
    | some translation ↦ publish_translation translation t
  ]

  unfoldable pub translate_packet_fn :
      (Packet → Option Translation)
      → Packet
      → Transformer Packet Translation
      → Transformer Packet Translation × Bool
  translate_packet_fn run packet t =
      if t.ctx_done then (t, true) else produce_translation run packet t

  -- The function of the translator pool.
  unfoldable pub translator_pool_fn :
      (Packet → Option Translation)
      → Packet
      → Transformer Packet Translation
      → Transformer Packet Translation
  translator_pool_fn run packet t =
      let (t', err) = translate_packet_fn run packet t in
      if t.ctx_done then rollback_translation t else if err then rollback_translation t' else t'

  -- `writeTranslation`, with the answer of the writer.
  unfoldable pub write_translation :
      Bool → ℕ × Translation → Transformer Packet Translation → Transformer Packet Translation
  write_translation ok task t =
      done_one
        (if t.ctx_done then t else if ok then record t { written = t.written ++ task ∷ [] } else t)

  -- One turn of `consumeTranslations` of a writer that has taken a translation from its queue.
  unfoldable pub consume_translation :
      ℕ → Translation → Transformer Packet Translation → Transformer Packet Translation
  consume_translation index translation t =
      if t.ctx_done
      then done_one t
      else record t { writing = t.writing ++ (index, translation) ∷ [] }
