-- ===== src/Transformer/Order/Moves.antt =====
-- The functions of the transformer keep the order.
use mathlib.Core.List.{append_assoc}
use pcap_sidecar.Common.{
  ◌≡◌, refl, sym, ap, subst, ◌∙◌, Bool, true, false, Option, some, List, [], ◌∷◌, ◌++◌, map, arith,
  Bool-cases, inl, inr, holds_if, ◌+◌, ◌%◌, ◌^◌,
}
use pcap_sidecar.Transformer.Order.{
  Writer, Ordered, enqueue, apply_ordered, send, publish_ordered, produce_translations,
  consume_ordered, release_one, rollback_ordered,
}
use pcap_sidecar.Transformer.Order.Lists.{
  IsPrefix, IsPrefix-append, map-append, All, All-map, All-at, All-set,
}
use pcap_sidecar.Transformer.Order.Writers.{
  enqueue_all, enqueue-IsPrefix, consume_ordered-all, consume_ordered-IsPrefix,
}
use pcap_sidecar.Transformer.Order.Kept.{InOrder, InOrder-kept, release_many-IsKept}

module _ {Packet Translation : Type 0} (run : Packet → Option Translation) where
  pub apply_ordered-InOrder :
      (meanwhile : Bool) (packet : Packet) (t : Ordered Packet Translation)
      → t.panicked ≡ false
      → InOrder run t
      → InOrder run (apply_ordered meanwhile packet t).0
  unfolding apply_ordered rollback_ordered
  apply_ordered-InOrder meanwhile packet t q i =
      holds_if (λ (r : Ordered Packet Translation × Bool). InOrder run r.0) t.ctx_done _ _ (λ c. i)
        (λ c.
          holds_if (λ (r : Ordered Packet Translation × Bool). InOrder run r.0) meanwhile _ _
            (λ d.
              let t0 : Ordered Packet Translation = record t {
                wg = t.wg + t.num_writers;
                counter = (t.counter + t.num_writers) % 2 ^ 64;
                ctx_done = true;
              } in
              let k = release_many-IsKept t.num_writers t0 in
              InOrder-kept run t _ q
                (record {
                  writers = k.writers;
                  published = k.published;
                  sent = k.sent;
                  och = k.och;
                  ich = k.ich;
                  ctx_done =
                      λ f. (let h : true ≡ false = k.ctx_done f in absurd (ground (arith, h)));
                })
                i)
            (λ d.
              InOrder-kept run t _ q
                (record {
                  writers = refl;
                  published = refl;
                  sent = refl;
                  och = refl;
                  ich = refl;
                  ctx_done = λ f. f;
                })
                i))

  pub send-InOrder :
      (packet : Packet) (t : Ordered Packet Translation)
      → t.panicked ≡ false
      → InOrder run t
      → InOrder run (send packet t)
  unfolding send
  send-InOrder packet t q i =
      holds_if (InOrder run) t.ich_closed _ _
        (λ c. record {
          offers = i.offers;
          queues = i.queues;
          publishes = i.publishes;
          flows = λ d p. absurd (ground (arith, p));
        })
        (λ c. record {
          offers = i.offers;
          queues = i.queues;
          publishes =
              subst (IsPrefix _) (sym (map-append run t.sent (packet ∷ [])))
                (IsPrefix-append _ _ (run packet ∷ []) i.publishes);
          flows = λ d p.
              map-append run t.sent (packet ∷ [])
              ∙ ap (λ l. l ++ run packet ∷ []) (i.flows d q)
              ∙ append_assoc (map some t.published) (t.och ++ map run t.ich) (run packet ∷ [])
              ∙ ap (λ l. map some t.published ++ l)
                  (append_assoc t.och (map run t.ich) (run packet ∷ [])
                    ∙ ap (λ l. t.och ++ l) (sym (map-append run t.ich (packet ∷ []))));
        })

  produce_translations-done :
      (translation : Translation) (t : Ordered Packet Translation)
      → t.ctx_done ≡ true
      → produce_translations (some translation) t ≡ rollback_ordered t
  unfolding produce_translations publish_ordered
  produce_translations-done translation t c = rw (produce_translations, publish_ordered, c) refl

  produce_translations-published :
      (translation : Translation) (t : Ordered Packet Translation)
      → t.ctx_done ≡ false
      → produce_translations (some translation) t ≡ record t {
        writers = map (enqueue translation) t.writers;
        published = t.published ++ translation ∷ [];
      }
  unfolding produce_translations publish_ordered
  produce_translations-published translation t c =
      rw (produce_translations, publish_ordered, c) refl

  pub publish_ordered-InOrder :
      (translation : Translation) (rest : List (Option Translation))
      (t : Ordered Packet Translation)
      → t.panicked ≡ false
      → t.och ≡ some translation ∷ rest
      → InOrder run t
      → InOrder run (produce_translations (some translation) (record t { och = rest }))
  unfolding rollback_ordered
  publish_ordered-InOrder translation rest t q e i = elim (Bool-cases t.ctx_done) [
    | inl c ↦
        subst (InOrder run)
          (sym (produce_translations-done translation (record t { och = rest }) c))
          (InOrder-kept run (record t { och = rest }) _ q
            (release_many-IsKept t.num_writers (record t { och = rest }))
            (record {
              offers = i.offers;
              queues = i.queues;
              publishes = i.publishes;
              flows = λ d p. absurd (ground (arith, c, d));
            }))
    | inr c ↦
        let moved : map run t.sent
            ≡ map some (t.published ++ translation ∷ []) ++ (rest ++ map run t.ich) =
          i.flows c q
          ∙ ap (λ l. map some t.published ++ (l ++ map run t.ich)) e
          ∙ sym
              (append_assoc (map some t.published) (some translation ∷ []) (rest ++ map run t.ich))
          ∙ ap (λ l. l ++ (rest ++ map run t.ich))
              (sym (map-append some t.published (translation ∷ []))) in
        subst (InOrder run)
          (sym (produce_translations-published translation (record t { och = rest }) c))
          (record {
            offers =
                All-map _ _ (enqueue translation) (enqueue-IsPrefix translation t.published)
                  t.writers i.offers;
            queues = λ d.
                All-map _ _ (enqueue translation) (enqueue_all translation t.published) t.writers
                  (i.queues d);
            publishes = (rest ++ map run t.ich, moved);
            flows = λ d p. moved;
          })
  ]

  pub consume_ordered-InOrder :
      (before after : List (Writer Translation)) (w : Writer Translation)
      (translation : Translation) (queue : List Translation) (ok : Bool)
      (t : Ordered Packet Translation)
      → t.panicked ≡ false
      → t.writers ≡ before ++ w ∷ after
      → w.queue ≡ translation ∷ queue
      → InOrder run t
      → InOrder run (
          release_one (record t {
            writers = before ++ consume_ordered t.ctx_done translation queue ok w ∷ after;
          }))
  unfolding release_one
  consume_ordered-InOrder before after w translation queue ok t q e h i = record {
    offers =
        let old = subst (All (λ v. IsPrefix v.offered t.published)) e i.offers in
        All-set (λ v. IsPrefix v.offered t.published) before w _ after old
          (consume_ordered-IsPrefix t.ctx_done translation queue ok w t.published h
            (λ c.
              All-at (λ v. v.offered ++ v.queue ≡ t.published) before w after
                (subst (All _) e (i.queues c)))
            (All-at (λ v. IsPrefix v.offered t.published) before w after old));
    queues = λ c.
        let old = subst (All (λ v. v.offered ++ v.queue ≡ t.published)) e (i.queues c) in
        All-set (λ v. v.offered ++ v.queue ≡ t.published) before w _ after old
          (consume_ordered-all t.ctx_done translation queue ok w t.published h c
            (All-at (λ v. v.offered ++ v.queue ≡ t.published) before w after old));
    publishes = i.publishes;
    flows = λ c p. i.flows c q;
  }
