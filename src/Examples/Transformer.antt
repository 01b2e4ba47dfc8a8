-- ===== src/Examples/Transformer.antt =====
-- The transformer at concrete packets: packet 0 has no translation.
use pcap_sidecar.Common.{
  ℕ, ◌+◌, ◌≡◌, arith, refl, true, false, Option, none, some, [], ◌∷◌, nat_eq, ◌==◌, if◌then◌else◌,
  length,
}
use pcap_sidecar.Transformer.Flow.{
  Transformer, apply, rollback_translation, roll, done_one, translator_pool_fn, translate_packet_fn,
  produce_translation,
}
use pcap_sidecar.Transformer.Flow.Steps.{
  applies, cancels, translates, Reaches, stays, steps, new_transformer,
}
use pcap_sidecar.Transformer.Shutdown.{wait_done, wait_done-drained}
use pcap_sidecar.Transformer.Flow.Weights.{weight, queued}
use pcap_sidecar.Transformer.Flow.Cancelled.{apply-cancelled}
use pcap_sidecar.Transformer.Flow.Reached.{wg-reached, wg-idle}

abbrev run : ℕ → Option ℕ
run p = if p == 0 then none else some p

abbrev applied : ℕ → Transformer ℕ ℕ
applied p = (apply false p (new_transformer ℕ ℕ 2)).0

abbrev translated : ℕ → Transformer ℕ ℕ
translated p = translator_pool_fn run p (record (applied p) { working = [] })

applied_working : (p : ℕ) → (applied p).working ≡ p ∷ []
unfolding apply new_transformer
applied_working p = refl

translated_reached : (p : ℕ) → Reaches run (new_transformer ℕ ℕ 2) (translated p)
translated_reached p =
    steps (steps stays (applies false p)) (translates [] [] p (applied_working p))

wg-reached_example :
    ((translated 7).wg
      ≡ weight (translated 7).num_writers (translated 7).working
        + (queued (translated 7).queues
            + (length (translated 7).writing
                + weight (translated 7).num_writers (translated 7).skipped)))
    × ((translated 7).crashed ≡ false)
wg-reached_example = wg-reached run 2 (translated 7) (translated_reached 7)

test_wg_idle : (translated 0).wg ≡ weight (translated 0).num_writers (translated 0).skipped
unfolding translator_pool_fn translate_packet_fn produce_translation apply new_transformer queued
test_wg_idle = wg-idle run 2 (translated 0) (translated_reached 0) refl refl refl

-- Nothing is in flight, and the wait group is at 2.
left_over : (translated 0).wg ≡ 2
unfolding translator_pool_fn translate_packet_fn produce_translation apply new_transformer
left_over = refl

test_apply-cancelled :
    apply true 7 (new_transformer ℕ ℕ 2)
    ≡ (record (new_transformer ℕ ℕ 2) { ctx_done = true }, true)
unfolding new_transformer
test_apply-cancelled = apply-cancelled 7 (new_transformer ℕ ℕ 2) refl (omega arith)

-- A packet is given up after a cancellation, and `WaitDone` returns.
abbrev given_up : Transformer ℕ ℕ
given_up = translator_pool_fn run 7 (record (applied 7) { working = []; ctx_done = true })

given_up_reached : Reaches run (new_transformer ℕ ℕ 2) given_up
given_up_reached =
    steps (steps (steps stays (applies false 7)) cancels) (translates [] [] 7 (applied_working 7))

wait_done-drained_example :
    (given_up.working ≡ [])
    × (queued given_up.queues ≡ 0)
    × (given_up.writing ≡ [])
    × (given_up.skipped ≡ [])
unfolding wait_done translator_pool_fn translate_packet_fn rollback_translation roll done_one apply
    new_transformer
wait_done-drained_example =
    wait_done-drained run 2 given_up false true (record { in_time = true; pools_released = true })
      given_up_reached (omega arith) refl refl
