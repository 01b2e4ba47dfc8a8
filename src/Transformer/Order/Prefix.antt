-- ===== src/Transformer/Order/Prefix.antt =====
-- Every writer gets the translations in the order of capture.
use mathlib.Core.List.{append_assoc}
use pcap_sidecar.Common.{
  ℕ, ◌≡◌, refl, sym, ap, subst, ◌∙◌, Bool, true, false, ◌&&◌, Option, none, some, List, [], ◌∷◌,
  ◌++◌, map, arith, if◌then◌else◌,
}
use pcap_sidecar.Transformer.Order.{Writer, Ordered, wait_for_context_done, produce_translations}
use pcap_sidecar.Transformer.Order.Steps.{
  Step, applies, sends, cancels, closes, translates, produces, consumes, Reaches, stays, steps,
  new_ordered,
}
use pcap_sidecar.Transformer.Order.Lists.{IsPrefix, IsPrefix-append, map-append, All, All-at}
use pcap_sidecar.Transformer.Order.Writers.{new_writers-All, new_writers-IsPrefix}
use pcap_sidecar.Transformer.Order.Kept.{InOrder, InOrder-kept}
use pcap_sidecar.Transformer.Order.Moves.{
  apply_ordered-InOrder, send-InOrder, publish_ordered-InOrder, consume_ordered-InOrder,
}

module _ {Packet Translation : Type 0} (run : Packet → Option Translation) where
  translated :
      {done : Bool} {packet : Packet} (seen : Bool)
      → done ≡ false
      → run packet ≡ (if seen && done then none else run packet)
  translated true c = ground (arith, c)
  translated false c = refl

  Step-InOrder :
      (t t' : Ordered Packet Translation)
      → t.panicked ≡ false
      → Step run t t'
      → InOrder run t
      → InOrder run t'
  unfolding wait_for_context_done produce_translations
  Step-InOrder t t' q (applies meanwhile packet e) i =
      apply_ordered-InOrder run meanwhile packet t q i
  Step-InOrder t t' q (sends packet e) i = send-InOrder run packet t q i
  Step-InOrder t t' q cancels i =
      InOrder-kept run t _ q
        (record {
          writers = refl;
          published = refl;
          sent = refl;
          och = refl;
          ich = refl;
          ctx_done = λ c. absurd (ground (arith, c));
        })
        i
  Step-InOrder t t' q closes i =
      InOrder-kept run t _ q
        (record {
          writers = refl;
          published = refl;
          sent = refl;
          och = refl;
          ich = refl;
          ctx_done = λ c. c;
        })
        i
  Step-InOrder t t' q (translates seen packet rest e) i = record {
    offers = i.offers;
    queues = i.queues;
    publishes = i.publishes;
    flows = λ c p.
        i.flows c q
        ∙ ap (λ l. map some t.published ++ l)
            (ap (λ l. t.och ++ map run l) e
              ∙ sym (append_assoc t.och (run packet ∷ []) (map run rest))
              ∙ ap (λ a. (t.och ++ a ∷ []) ++ map run rest) (translated seen c));
  }
  Step-InOrder t t' q (produces none rest e) i = record {
    offers = i.offers;
    queues = i.queues;
    publishes = i.publishes;
    flows = λ c p. absurd (ground (arith, p));
  }
  Step-InOrder t t' q (produces (some translation) rest e) i =
      publish_ordered-InOrder run translation rest t q e i
  Step-InOrder t t' q (consumes before after w translation queue ok e h) i =
      consume_ordered-InOrder run before after w translation queue ok t q e h i

  Reaches-InOrder :
      (t t' : Ordered Packet Translation) → Reaches run t t' → InOrder run t → InOrder run t'
  Reaches-InOrder t t' stays i = i
  Reaches-InOrder t t' (steps {a} {b} r q s) i = Step-InOrder a b q s (Reaches-InOrder t a r i)

  InOrder-new : (n : ℕ) → InOrder run (new_ordered Packet Translation n)
  unfolding new_ordered
  InOrder-new n = record {
    offers = new_writers-IsPrefix Translation n;
    queues = λ c. new_writers-All Translation n;
    publishes = ([], refl);
    flows = λ c p. refl;
  }

  -- In every state that the goroutines reach from a new transformer with ordered output and any
  -- number of writers, cancellation and panics included: what each writer was given, in order, is a
  -- prefix of the translations of the packets that were sent, in the order of their capture.
  pub offered-IsPrefix :
      (n : ℕ) (t : Ordered Packet Translation) (before after : List (Writer Translation))
      (w : Writer Translation)
      → Reaches run (new_ordered Packet Translation n) t
      → t.writers ≡ before ++ w ∷ after
      → IsPrefix (map some w.offered) (map run t.sent)
  offered-IsPrefix n t before after w r e =
      let i = Reaches-InOrder (new_ordered Packet Translation n) t r (InOrder-new n) in
      let (rest, p) =
        All-at (λ v. IsPrefix v.offered t.published) before w after (subst (All _) e i.offers) in
      subst (λ l. IsPrefix (map some w.offered) l) (sym i.publishes.1)
        (IsPrefix-append _ _ i.publishes.0 (
          subst (IsPrefix (map some w.offered))
            (sym (ap (map some) p ∙ map-append some w.offered rest)) (map some rest, refl)))
