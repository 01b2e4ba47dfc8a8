-- ===== src/Transformer/Order.antt =====
-- `PcapTransformer` with ordered output: the channel of the packets, the channel of their
-- translations, and the queue of each writer. `concurrently.Process` translates several packets at a
-- time and delivers in order, so it is a step that takes the first packet.
pub mod Steps
pub mod Lists
pub mod Writers
pub mod Kept
pub mod Moves
pub mod Prefix
use pcap_sidecar.Common.{
  ℕ, zero, suc, ◌+◌, ◌-◌, ◌%◌, ◌^◌, Bool, true, false, ◌&&◌, Option, none, some, List, [], ◌∷◌,
  ◌++◌, map, nat_eq, ◌==◌, if◌then◌else◌,
}

pub record Writer (Translation : Type 0) : Type 0 where
  pub queue : List Translation
  -- What was given to the writer, and what of it was written.
  pub offered : List Translation
  pub written : List Translation

module _ (Packet Translation : Type 0) where
  pub record Ordered : Type 0 where
    pub num_writers : ℕ
    pub ctx_done : Bool
    pub wg : ℕ
    -- An int64, as a number modulo 2 ^ 64.
    pub counter : ℕ
    -- A send on a closed channel, a type assertion on nil, or a wait group below 0.
    pub panicked : Bool
    -- The packet of an `Apply` that is about to be sent.
    pub sending : Option Packet
    pub ich : List Packet
    pub ich_closed : Bool
    pub och : List (Option Translation)
    pub writers : List (Writer Translation)
    -- The packets that were sent and the translations that were published, in order, so far.
    pub sent : List Packet
    pub published : List Translation

-- `translations <- translation` for every queue.
unfoldable pub enqueue :
    {Translation : Type 0} → Translation → Writer Translation → Writer Translation
enqueue translation w = record w { queue = w.queue ++ translation ∷ [] }

-- A turn of `consumeTranslations` that has taken a translation from the queue of `w`; `ok` is the
-- answer of the writer.
unfoldable pub consume_ordered :
    {Translation : Type 0}
    → Bool
    → Translation
    → List Translation
    → Bool
    → Writer Translation
    → Writer Translation
consume_ordered ctx_done translation queue ok w =
    if ctx_done then record w { queue = queue } else record w {
      queue = queue;
      offered = w.offered ++ translation ∷ [];
      written = if ok then w.written ++ translation ∷ [] else w.written;
    }

module _ {Packet Translation : Type 0} where
  -- `t.counter.Add(-1)` and `t.wg.Done()`
  unfoldable pub release_one : Ordered Packet Translation → Ordered Packet Translation
  release_one t = record t {
    wg = t.wg - 1;
    counter = (t.counter + (2 ^ 64 - 1)) % 2 ^ 64;
    panicked = if t.wg == 0 then true else t.panicked;
  }

  unfoldable pub release_many : ℕ → Ordered Packet Translation → Ordered Packet Translation
  release_many zero t = t
  release_many (suc k) t = release_many k (release_one t)

  -- `rollbackTranslation`
  unfoldable pub rollback_ordered : Ordered Packet Translation → Ordered Packet Translation
  unfolding release_many release_one
  rollback_ordered t = release_many t.num_writers t

  -- `Apply` until the packet is sent: `meanwhile` is a cancellation after the commitment.
  unfoldable pub apply_ordered :
      Bool → Packet → Ordered Packet Translation → Ordered Packet Translation × Bool
  unfolding rollback_ordered
  apply_ordered meanwhile packet t =
      let t' = record t {
        wg = t.wg + t.num_writers;
        counter = (t.counter + t.num_writers) % 2 ^ 64;
      } in
      if t.ctx_done
      then (t, true)
      else if meanwhile
      then (rollback_ordered (record t' { ctx_done = true }), true)
      else (record t' { sending = some packet }, false)

  -- `t.ich <- w`
  unfoldable pub send : Packet → Ordered Packet Translation → Ordered Packet Translation
  send packet t =
      if t.ich_closed
      then record t { sending = none; panicked = true }
      else record t { sending = none; ich = t.ich ++ packet ∷ []; sent = t.sent ++ packet ∷ [] }

  -- `waitForContextDone`, once the context is done.
  unfoldable pub wait_for_context_done : Ordered Packet Translation → Ordered Packet Translation
  wait_for_context_done t = record t { ich_closed = t.ctx_done }

  -- `publishTranslation`: an error when the context is done.
  unfoldable pub publish_ordered :
      Translation → Ordered Packet Translation → Ordered Packet Translation × Bool
  publish_ordered translation t = if t.ctx_done then (t, true) else (
    record t {
      writers = map (enqueue translation) t.writers;
      published = t.published ++ translation ∷ [];
    },
    false,
  )

  -- A turn of `produceTranslations`.
  unfoldable pub produce_translations :
      Option Translation → Ordered Packet Translation → Ordered Packet Translation
  unfolding publish_ordered rollback_ordered
  produce_translations none t = record t { panicked = true }
  produce_translations (some translation) t =
      let (t', err) = publish_ordered translation t in if err then rollback_ordered t' else t'
