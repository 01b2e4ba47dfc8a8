-- ===== src/Transformer/Worker.antt =====
-- The worker that translates a packet: `translate` and `Run` of
-- pcap-cli/internal/transformer/translator_worker.go.
use pcap_sidecar.Common.{
  ℕ, Bool, not, Option, none, some, List, fold, contains, nat_eq, if◌then◌else◌,
}
use pcap_sidecar.Filters.Libs.{FilterLibs}
use pcap_sidecar.Filters.Config.{PcapFilters}
use pcap_sidecar.Filters.Worker.{Packet, is_translated}

-- What the translation of a layer comes to: a panic is recovered.
pub data Translated (T : Type 0) : Type 0 where
  made : T → Translated T
  -- The answer nil.
  unavailable : Translated T
  panics : Translated T

-- The translator: `T` are its translations, and types of layers are numbers.
pub record TranslatorLibs : Type 1 where
  pub T : Type 0
  -- `next`; `none` is nil.
  pub next : Option T
  -- `merge`, whose error is ignored.
  pub merge : T → T → T
  -- `finalize`; `none` is a panic.
  pub finalize : T → Option T
  -- The functions of `packetLayerTranslatorsMap`, on the first layer of their type in the packet.
  pub translators : ℕ → Option (Translated T)
  -- `translateLayerError` of a type, for a layer without an answer, after a panic, and for a type
  -- that has no function.
  pub unavailable_error : ℕ → T
  pub panic_error : ℕ → T
  pub unimplemented_error : ℕ → T

module _ (X : TranslatorLibs) where
  -- `translate`: what is sent for a layer, if anything; `skipped` are the skipped types.
  unfoldable pub translate_layer : List ℕ → ℕ → Option X.T
  translate_layer skipped layer = elim (X.translators layer) [
    | some (made t) ↦ some t
    | some unavailable ↦ some (X.unavailable_error layer)
    | some panics ↦ some (X.panic_error layer)
    | none ↦ if contains layer skipped then none else some (X.unimplemented_error layer)
  ]

  abbrev pub merge_some : X.T → Option X.T → X.T
  merge_some buffer none = buffer
  merge_some buffer (some t) = X.merge buffer t

  -- The loop over the channel, where the layers arrive in the given order.
  unfoldable pub merge_layers : List ℕ → X.T → List ℕ → X.T
  unfolding translate_layer
  merge_layers skipped buffer layers =
      fold (λ b layer. merge_some b (translate_layer skipped layer)) buffer layers

  -- `Run`: the context may be done before the translation, or before the end. `arrived` are the types
  -- of the layers in the order in which their translations arrive.
  unfoldable pub run :
      {L : FilterLibs}
      → Option (PcapFilters L)
      → Packet
      → Bool
      → Bool
      → List ℕ
      → List ℕ
      → Option X.T
  unfolding is_translated merge_layers
  run filters packet done_before done_after skipped arrived =
      if not (is_translated filters packet)
      then none
      else if done_before
      then none
      else elim X.next [
        | none ↦ none
        | some buffer ↦
            let merged = merge_layers skipped buffer arrived in
            if done_after then some merged else X.finalize merged
      ]
