-- ===== src/Transformer/Shutdown.antt =====
-- `WaitDone` of the transformer with unordered output.
use pcap_sidecar.Common.{
  ℕ, ◌<◌, ◌≡◌, refl, Bool, true, false, ◌&&◌, Option, none, some, List, [], ◌∷◌, arith, nat_eq,
  ◌==◌, if◌then◌else◌, length,
}
use pcap_sidecar.Transformer.Flow.{Transformer}
use pcap_sidecar.Transformer.Flow.Steps.{Reaches, new_transformer}
use pcap_sidecar.Transformer.Flow.Weights.{weight, queued}
use pcap_sidecar.Transformer.Flow.Reached.{wg-reached}

-- What `WaitDone` has done when it returns: the queues are closed and the translator has ended.
pub record Shutdown : Type 0 where
  -- The wait group came before the timer.
  pub in_time : Bool
  pub pools_released : Bool

-- `WaitDone`; `none` while it waits. After the wait for the group it waits for the consumers, which
-- answer once the context is done; `time_left` is whether the deadline is then still to come.
unfoldable pub wait_done :
    {Packet Translation : Type 0} → Bool → Bool → Transformer Packet Translation → Option Shutdown
wait_done timed_out time_left t =
    if timed_out
    then some (record { in_time = false; pools_released = false })
    else if t.wg == 0 && t.ctx_done
    then some (record { in_time = true; pools_released = time_left })
    else none

weightless : {A : Type 0} (n : ℕ) (xs : List A) → 0 < n → weight n xs ≡ 0 → xs ≡ []
unfolding weight
weightless n [] p e = refl
weightless n (x ∷ xs) p e = absurd (omega (arith, p, e))

lengthless : {A : Type 0} (xs : List A) → length xs ≡ 0 → xs ≡ []
lengthless [] e = refl
lengthless (x ∷ xs) e = absurd (omega (arith, e))

-- In every state that the goroutines reach from a new transformer with at least one writer: when
-- `WaitDone` returns before its deadline, nothing is in the translator pool, in the queues or in the
-- writer pool, and no packet was without a translation, as one that the filters reject is.
pub wait_done-drained :
    {Packet Translation : Type 0} (run : Packet → Option Translation) (n : ℕ)
    (t : Transformer Packet Translation) (timed_out time_left : Bool) (s : Shutdown)
    → Reaches run (new_transformer Packet Translation n) t
    → 0 < t.num_writers
    → wait_done timed_out time_left t ≡ some s
    → s.in_time ≡ true
    → (t.working ≡ []) × (queued t.queues ≡ 0) × (t.writing ≡ []) × (t.skipped ≡ [])
unfolding wait_done
wait_done-drained run n t timed_out time_left s r p e h =
    let idle : t.wg ≡ 0 = ground (arith, e, h) in
    let sum = (wg-reached run n t r).0 in
    (
      weightless t.num_writers t.working p (omega (arith, idle, sum)),
      omega (arith, idle, sum),
      lengthless t.writing (omega (arith, idle, sum)),
      weightless t.num_writers t.skipped p (omega (arith, idle, sum)),
    )
