-- ===== src/Transformer/Flow/Steps.antt =====
-- The interleavings of the goroutines of the transformer, as a step relation.
use pcap_sidecar.Common.{ℕ, zero, suc, Bool, true, false, Option, List, [], ◌∷◌, ◌++◌, ◌≡◌, length}
use pcap_sidecar.Transformer.Flow.{
  Transformer, apply, translator_pool_fn, write_translation, consume_translation,
}

module _ {Packet Translation : Type 0} (run : Packet → Option Translation) where
  -- A step of one goroutine. The pools take their tasks in any order; each queue is in order.
  pub data Step (t : Transformer Packet Translation) : Transformer Packet Translation → Type 0 where
    applies : (meanwhile : Bool) (packet : Packet) → Step t (apply meanwhile packet t).0
    cancels : Step t (record t { ctx_done = true })
    translates :
        (before after : List Packet) (packet : Packet)
        → t.working ≡ before ++ packet ∷ after
        → Step t (translator_pool_fn run packet (record t { working = before ++ after }))
    consumes :
        (before after : List (List Translation)) (translation : Translation)
        (queue : List Translation)
        → t.queues ≡ before ++ (translation ∷ queue) ∷ after
        → Step t (
            consume_translation
              (length before)
              translation
              (record t { queues = before ++ queue ∷ after }))
    writes :
        (before after : List (ℕ × Translation)) (task : ℕ × Translation) (ok : Bool)
        → t.writing ≡ before ++ task ∷ after
        → Step t (write_translation ok task (record t { writing = before ++ after }))

  pub data Reaches (t : Transformer Packet Translation)
      : Transformer Packet Translation → Type 0 where
    stays : Reaches t t
    steps : {t' t'' : Transformer Packet Translation} → Reaches t t' → Step t' t'' → Reaches t t''

-- `n` empty queues.
unfoldable pub no_queues : {Translation : Type 0} → ℕ → List (List Translation)
no_queues zero = []
no_queues (suc n) = [] ∷ no_queues n

-- A new transformer with that many writers.
unfoldable pub new_transformer : (Packet Translation : Type 0) → ℕ → Transformer Packet Translation
unfolding no_queues
new_transformer Packet Translation n = record {
  num_writers = n;
  ctx_done = false;
  wg = 0;
  crashed = false;
  counter = 0;
  working = [];
  queues = no_queues n;
  writing = [];
  written = [];
  skipped = [];
}
