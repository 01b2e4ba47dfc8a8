-- ===== src/Transformer/Order/Writers.antt =====
-- One writer with ordered output: its queue and what it was given.
use mathlib.Core.List.{append_assoc}
use pcap_sidecar.Common.{
  ℕ, zero, suc, ◌≡◌, refl, sym, ap, ◌∙◌, Bool, true, false, List, [], ◌∷◌, ◌++◌, arith,
}
use pcap_sidecar.Transformer.Order.{Writer, enqueue, consume_ordered}
use pcap_sidecar.Transformer.Order.Steps.{new_writers}
use pcap_sidecar.Transformer.Order.Lists.{IsPrefix, IsPrefix-append, All}

module _ (Translation : Type 0) where
  pub new_writers-All :
      (n : ℕ) → All (λ (w : Writer Translation). w.offered ++ w.queue ≡ []) (new_writers n)
  unfolding new_writers
  new_writers-All zero = tt
  new_writers-All (suc n) = (refl, new_writers-All n)

  pub new_writers-IsPrefix :
      (n : ℕ) → All (λ (w : Writer Translation). IsPrefix w.offered []) (new_writers n)
  unfolding new_writers
  new_writers-IsPrefix zero = tt
  new_writers-IsPrefix (suc n) = (([], refl), new_writers-IsPrefix n)

module _ {Translation : Type 0} where
  pub enqueue_all :
      (translation : Translation) (published : List Translation) (w : Writer Translation)
      → w.offered ++ w.queue ≡ published
      → (enqueue translation w).offered ++ (enqueue translation w).queue
        ≡ published ++ translation ∷ []
  unfolding enqueue
  enqueue_all translation published w e =
      sym (append_assoc w.offered w.queue (translation ∷ [])) ∙ ap (λ l. l ++ translation ∷ []) e

  pub enqueue-IsPrefix :
      (translation : Translation) (published : List Translation) (w : Writer Translation)
      → IsPrefix w.offered published
      → IsPrefix (enqueue translation w).offered (published ++ translation ∷ [])
  unfolding enqueue
  enqueue-IsPrefix translation published w p =
      IsPrefix-append w.offered published (translation ∷ []) p

  pub consume_ordered-all :
      (c : Bool) (translation : Translation) (queue : List Translation) (ok : Bool)
      (w : Writer Translation) (published : List Translation)
      → w.queue ≡ translation ∷ queue
      → c ≡ false
      → w.offered ++ w.queue ≡ published
      → (consume_ordered c translation queue ok w).offered
          ++ (consume_ordered c translation queue ok w).queue
        ≡ published
  unfolding consume_ordered
  consume_ordered-all true translation queue ok w published h c e = absurd (ground (arith, c))
  consume_ordered-all false translation queue ok w published h c e =
      append_assoc w.offered (translation ∷ []) queue ∙ ap (λ l. w.offered ++ l) (sym h) ∙ e

  pub consume_ordered-IsPrefix :
      (c : Bool) (translation : Translation) (queue : List Translation) (ok : Bool)
      (w : Writer Translation) (published : List Translation)
      → w.queue ≡ translation ∷ queue
      → (c ≡ false → w.offered ++ w.queue ≡ published)
      → IsPrefix w.offered published
      → IsPrefix (consume_ordered c translation queue ok w).offered published
  unfolding consume_ordered
  consume_ordered-IsPrefix true translation queue ok w published h all p = p
  consume_ordered-IsPrefix false translation queue ok w published h all p =
      (queue, sym (consume_ordered-all false translation queue ok w published h refl (all refl)))
