-- ===== src/Transformer/Order/Steps.antt =====
-- The interleavings of the goroutines with ordered output.
use pcap_sidecar.Common.{
  ℕ, zero, suc, Bool, true, false, Option, none, some, List, [], ◌∷◌, ◌++◌, ◌≡◌, ◌&&◌,
  if◌then◌else◌,
}
use pcap_sidecar.Transformer.Order.{
  Writer, Ordered, apply_ordered, send, wait_for_context_done, produce_translations,
  consume_ordered, release_one,
}

module _ {Packet Translation : Type 0} (run : Packet → Option Translation) where
  -- A step of one goroutine. One goroutine applies the transformer, and `run` is a worker's `Run`,
  -- which has no translation once it has seen that the context is done.
  pub data Step (t : Ordered Packet Translation) : Ordered Packet Translation → Type 0 where
    applies :
        (meanwhile : Bool) (packet : Packet)
        → t.sending ≡ none
        → Step t (apply_ordered meanwhile packet t).0
    sends : (packet : Packet) → t.sending ≡ some packet → Step t (send packet t)
    cancels : Step t (record t { ctx_done = true })
    closes : Step t (wait_for_context_done t)
    translates :
        (seen : Bool) (packet : Packet) (rest : List Packet)
        → t.ich ≡ packet ∷ rest
        → Step t (record t {
          ich = rest;
          och = t.och ++ (if seen && t.ctx_done then none else run packet) ∷ [];
        })
    produces :
        (answer : Option Translation) (rest : List (Option Translation))
        → t.och ≡ answer ∷ rest
        → Step t (produce_translations answer (record t { och = rest }))
    consumes :
        (before after : List (Writer Translation)) (w : Writer Translation)
        (translation : Translation) (queue : List Translation) (ok : Bool)
        → t.writers ≡ before ++ w ∷ after
        → w.queue ≡ translation ∷ queue
        → Step t (
            release_one (record t {
              writers = before ++ consume_ordered t.ctx_done translation queue ok w ∷ after;
            }))

  -- A panic ends the program.
  pub data Reaches (t : Ordered Packet Translation) : Ordered Packet Translation → Type 0 where
    stays : Reaches t t
    steps :
        {a b : Ordered Packet Translation}
        → Reaches t a
        → a.panicked ≡ false
        → Step a b
        → Reaches t b

unfoldable pub new_writers : {Translation : Type 0} → ℕ → List (Writer Translation)
new_writers zero = []
new_writers (suc n) = record { queue = []; offered = []; written = [] } ∷ new_writers n

-- `newTransformer` with ordered output and that many writers.
unfoldable pub new_ordered : (Packet Translation : Type 0) → ℕ → Ordered Packet Translation
unfolding new_writers
new_ordered Packet Translation n = record {
  num_writers = n;
  ctx_done = false;
  wg = 0;
  counter = 0;
  panicked = false;
  sending = none;
  ich = [];
  ich_closed = false;
  och = [];
  writers = new_writers n;
  sent = [];
  published = [];
}
