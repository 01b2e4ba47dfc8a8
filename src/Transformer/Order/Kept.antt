-- ===== src/Transformer/Order/Kept.antt =====
-- The invariant of the order, and what leaves it as it is.
use pcap_sidecar.Common.{ℕ, zero, suc, ◌≡◌, refl, false, Option, some, ◌++◌, map}
use pcap_sidecar.Transformer.Order.{Ordered, release_one, release_many}
use pcap_sidecar.Transformer.Order.Lists.{IsPrefix, All}

module _ {Packet Translation : Type 0} where
  -- Nothing that the order is about has changed; the context may be done now.
  pub record IsKept (t t' : Ordered Packet Translation) : Type 0 where
    pub writers : t'.writers ≡ t.writers
    pub published : t'.published ≡ t.published
    pub sent : t'.sent ≡ t.sent
    pub och : t'.och ≡ t.och
    pub ich : t'.ich ≡ t.ich
    pub ctx_done : t'.ctx_done ≡ false → t.ctx_done ≡ false

  pub release_many-IsKept : (n : ℕ) (t : Ordered Packet Translation) → IsKept t (release_many n t)
  unfolding release_many release_one
  release_many-IsKept zero t = record {
    writers = refl;
    published = refl;
    sent = refl;
    och = refl;
    ich = refl;
    ctx_done = λ c. c;
  }
  release_many-IsKept (suc n) t =
      let k = release_many-IsKept n (release_one t) in
      record {
        writers = k.writers;
        published = k.published;
        sent = k.sent;
        och = k.och;
        ich = k.ich;
        ctx_done = k.ctx_done;
      }

module _ {Packet Translation : Type 0} (run : Packet → Option Translation) where
  pub record InOrder (t : Ordered Packet Translation) : Type 0 where
    -- What a writer was offered is a prefix of what was published, and with its queue all of it
    -- until the context is done.
    pub offers : All (λ w. IsPrefix w.offered t.published) t.writers
    pub queues : t.ctx_done ≡ false → All (λ w. w.offered ++ w.queue ≡ t.published) t.writers
    -- What was published is a prefix of the translations of what was sent, and with what is on the
    -- way all of it until the context is done or the program panics.
    pub publishes : IsPrefix (map some t.published) (map run t.sent)
    pub flows :
        t.ctx_done ≡ false
        → t.panicked ≡ false
        → map run t.sent ≡ map some t.published ++ (t.och ++ map run t.ich)

  pub InOrder-kept :
      (t t' : Ordered Packet Translation)
      → t.panicked ≡ false
      → IsKept t t'
      → InOrder t
      → InOrder t'
  InOrder-kept t t' q k i = record {
    offers = rw (k.writers, k.published) i.offers;
    queues = λ c. rw (k.writers, k.published) (i.queues (k.ctx_done c));
    publishes = rw (k.sent, k.published) i.publishes;
    flows = λ c p. rw (k.sent, k.published, k.och, k.ich) (i.flows (k.ctx_done c) q);
  }
