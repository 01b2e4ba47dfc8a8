-- ===== src/Transformer/Flow/Reached.antt =====
-- The commitments that are open in every state that the goroutines reach.
use pcap_sidecar.Common.{
  ℕ, zero, suc, ◌+◌, ◌≡◌, refl, ap, ◌∙◌, false, Option, [], ◌∷◌, arith, nat_eq, length,
  length-append,
}
use pcap_sidecar.Transformer.Flow.{Transformer}
use pcap_sidecar.Transformer.Flow.Steps.{
  Step, applies, cancels, translates, consumes, writes, Reaches, stays, steps, new_transformer,
  no_queues,
}
use pcap_sidecar.Transformer.Flow.Weights.{
  weight, queued, weight-append, weight-empty, weight-cons, queued-append, queued-cons,
}
use pcap_sidecar.Transformer.Flow.Balance.{
  Balanced, translator_pool_fn-Balanced, apply-Balanced, consume-Balanced, write-Balanced,
}

no_queues-length : (A : Type 0) (n : ℕ) → length (no_queues {Translation = A} n) ≡ n
unfolding no_queues
no_queues-length A zero = refl
no_queues-length A (suc n) = omega (arith, no_queues-length A n)

no_queues-queued : (A : Type 0) (n : ℕ) → queued (no_queues {Translation = A} n) ≡ 0
unfolding no_queues queued
no_queues-queued A zero = refl
no_queues-queued A (suc n) = omega (arith, no_queues-queued A n)

module _ {Packet Translation : Type 0} where
  Step-Balanced :
      (run : Packet → Option Translation) (t t' : Transformer Packet Translation)
      → Step run t t'
      → Balanced 0 t
      → Balanced 0 t'
  Step-Balanced run t t' (applies meanwhile packet) b = apply-Balanced meanwhile packet t b
  Step-Balanced run t t' cancels b = record { balance = b.balance; safe = b.safe; width = b.width }
  Step-Balanced run t t' (translates before after packet e) b =
      translator_pool_fn-Balanced run packet _ (record {
        balance = omega (
          arith,
          b.balance,
          ap (weight t.num_writers) e ∙ weight-append t.num_writers before (packet ∷ after),
          weight-cons t.num_writers packet after,
          weight-append t.num_writers before after,
        );
        safe = b.safe;
        width = b.width;
      })
  Step-Balanced run t t' (consumes before after translation queue e) b =
      consume-Balanced (length before) translation _ (record {
        balance = omega (
          arith,
          b.balance,
          ap queued e ∙ queued-append before ((translation ∷ queue) ∷ after),
          queued-cons (translation ∷ queue) after,
          queued-append before (queue ∷ after),
          queued-cons queue after,
        );
        safe = b.safe;
        width = omega (
          arith,
          b.width,
          ap length e ∙ length-append before ((translation ∷ queue) ∷ after),
          length-append before (queue ∷ after),
        );
      })
  Step-Balanced run t t' (writes before after task ok e) b = write-Balanced ok task _ (record {
    balance = omega (
      arith,
      b.balance,
      ap length e ∙ length-append before (task ∷ after),
      length-append before after,
    );
    safe = b.safe;
    width = b.width;
  })

  new-Balanced : (n : ℕ) → Balanced 0 (new_transformer Packet Translation n)
  unfolding new_transformer weight
  new-Balanced n = record {
    balance = omega (arith, no_queues-queued Translation n);
    safe = refl;
    width = no_queues-length Translation n;
  }

  Reaches-Balanced :
      (run : Packet → Option Translation) (n : ℕ) (t : Transformer Packet Translation)
      → Reaches run (new_transformer Packet Translation n) t
      → Balanced 0 t
  Reaches-Balanced run n t stays = new-Balanced n
  Reaches-Balanced run n t (steps r s) = Step-Balanced run _ t s (Reaches-Balanced run n _ r)

  -- In every state that the goroutines reach from a new transformer, in any interleaving and with
  -- cancellations, the counter of the wait group is the number of the writers for each packet in the
  -- translator pool and for each packet that had no translation, and one for each queued translation
  -- and each task of the writer pool; and it never went below 0.
  pub wg-reached :
      (run : Packet → Option Translation) (n : ℕ) (t : Transformer Packet Translation)
      → Reaches run (new_transformer Packet Translation n) t
      → (t.wg
          ≡ weight t.num_writers t.working
            + (queued t.queues + (length t.writing + weight t.num_writers t.skipped)))
        × (t.crashed ≡ false)
  wg-reached run n t r = let b = Reaches-Balanced run n t r in (omega (arith, b.balance), b.safe)

  -- Once nothing is in flight, the wait group is left with the number of the writers for each packet
  -- that had no translation.
  pub wg-idle :
      (run : Packet → Option Translation) (n : ℕ) (t : Transformer Packet Translation)
      → Reaches run (new_transformer Packet Translation n) t
      → t.working ≡ []
      → queued t.queues ≡ 0
      → t.writing ≡ []
      → t.wg ≡ weight t.num_writers t.skipped
  wg-idle run n t r w q p =
      omega
        (arith, (wg-reached run n t r).0, weight-empty t.num_writers t.working w, q, ap length p)
