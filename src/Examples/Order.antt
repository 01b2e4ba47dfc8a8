-- ===== src/Examples/Order.antt =====
-- Ordered output at concrete packets.
use pcap_sidecar.Common.{
  ℕ, ◌≡◌, refl, true, false, Option, none, some, [], ◌∷◌, nat_eq, ◌==◌, if◌then◌else◌,
}
use pcap_sidecar.Transformer.Order.{
  Ordered, enqueue, apply_ordered, send, publish_ordered, produce_translations, consume_ordered,
  release_one,
}
use pcap_sidecar.Transformer.Order.Steps.{
  applies, sends, cancels, translates, produces, consumes, Reaches, stays, steps, new_ordered,
}
use pcap_sidecar.Transformer.Order.Lists.{IsPrefix}
use pcap_sidecar.Transformer.Order.Prefix.{offered-IsPrefix}

abbrev answer : ℕ → Option ℕ
answer p = if p == 0 then none else some p

-- The state after a packet was applied and sent.
abbrev sent_after : ℕ → Ordered ℕ ℕ → Ordered ℕ ℕ
sent_after p t = send p (apply_ordered false p t).0

abbrev two_sent : Ordered ℕ ℕ
two_sent = sent_after 6 (sent_after 5 (new_ordered ℕ ℕ 1))

-- The first packet's translation is published and written.
abbrev one_written : Ordered ℕ ℕ
one_written =
    release_one
      (record (produce_translations (some 5) (record two_sent { ich = 6 ∷ []; och = [] })) {
        writers =
            consume_ordered false 5 [] true (record { queue = 5 ∷ []; offered = []; written = [] })
            ∷ [];
      })

Reaches-two_sent : Reaches answer (new_ordered ℕ ℕ 1) two_sent
unfolding apply_ordered send new_ordered
Reaches-two_sent =
    steps
      (steps (steps (steps stays refl (applies false 5 refl)) refl (sends 5 refl)) refl
        (applies false 6 refl))
      refl (sends 6 refl)

Reaches-one_written : Reaches answer (new_ordered ℕ ℕ 1) one_written
unfolding apply_ordered send new_ordered produce_translations publish_ordered enqueue
Reaches-one_written =
    steps
      (steps (steps Reaches-two_sent refl (translates false 5 (6 ∷ []) refl)) refl
        (produces (some 5) [] refl))
      refl
      (consumes [] [] (record { queue = 5 ∷ []; offered = []; written = [] }) 5 [] true refl refl)

offered-IsPrefix_example : IsPrefix {A = Option ℕ} (some 5 ∷ []) (some 5 ∷ some 6 ∷ [])
unfolding apply_ordered send new_ordered produce_translations publish_ordered enqueue
    consume_ordered release_one
offered-IsPrefix_example =
    offered-IsPrefix answer 1 one_written [] []
      (record { queue = []; offered = 5 ∷ []; written = 5 ∷ [] }) Reaches-one_written refl

-- A packet that is translated after the context is done stops the program with a panic.
test_shutdown :
    (t : Ordered ℕ ℕ) × Reaches answer (new_ordered ℕ ℕ 1) t
    × (t.ctx_done ≡ true)
    × (t.panicked ≡ true)
unfolding apply_ordered send new_ordered produce_translations
test_shutdown = (
  _,
  steps (steps (steps Reaches-two_sent refl cancels) refl (translates true 5 (6 ∷ []) refl)) refl
      (produces none [] refl),
  refl,
  refl,
)
