-- ===== src/Fsnotify/Watcher/Queue.antt =====
-- The event loop: what was exported and what is queued, after any sequence of events.
use pcap_sidecar.Common.{
  ◌+◌, ◌-◌, ◌^◌, ◌<◌, ◌≡◌, refl, sym, ap, subst, ◌∙◌, String, true, false, some, List, [], ◌∷◌,
  ◌++◌, arith, string_eq, length, length-append, Bool-cases, inl, inr,
}
use mathlib.Core.List.{append_assoc, append-nil}
use pcap_sidecar.Fsnotify.Watcher.Defs.{
  WatcherLibs, Watcher, Event, start, export_pcap_file, handle, handle_all,
}
use pcap_sidecar.Fsnotify.Watcher.Rotation.{of_key, to_list, Keeps, turned}
use pcap_sidecar.Fsnotify.Watcher.Events.{
  detected, Named, turned-Keeps, export-turned, captures, ends, handle_capture, stopped, handle_end,
  handle_skip, captured_key, handle_all_off, Keeps-stopped, is_active-turned,
}

-- What is kept, and no report of a leak.
abbrev Sound : {W : WatcherLibs} → List String → Watcher W → Type 0
Sound seen s = Keeps seen s × (s.leaks ≡ 0)

Sound-by :
    {W : WatcherLibs} (seen seen' : List String) (s s' : Watcher W)
    → seen ≡ seen'
    → s ≡ s'
    → Sound seen s
    → Sound seen' s'
Sound-by seen seen' s s' l e k = subst (Sound seen') e (subst (λ x. Sound x s) l k)

leaks-turned :
    {W : WatcherLibs} (s : Watcher W) (key file : String) → (turned s key file).leaks ≡ s.leaks
unfolding turned
leaks-turned s key file = refl

handle_all-cons :
    {W : WatcherLibs} (e : Event) (events : List Event) (s : Watcher W)
    → handle_all (e ∷ events) s ≡ handle_all events (handle e s)
unfolding handle_all
handle_all-cons e events s = refl

handle_all-nil : {W : WatcherLibs} (s : Watcher W) → handle_all [] s ≡ s
unfolding handle_all
handle_all-nil s = refl

detected-nil : (W : WatcherLibs) → detected W [] ≡ []
unfolding detected
detected-nil W = refl

-- What the loop over `events` keeps, from any state.
abbrev Runs : WatcherLibs → List Event → Type 0
Runs W events =
    (s : Watcher W) (seen : List String)
    → s.is_active ≡ true
    → length seen + length (detected W events) < 2 ^ 64 - 1
    → Sound seen s
    → Sound (seen ++ detected W events) (handle_all events s)

module _ {W : WatcherLibs} (named : Named W) (e : Event) (events : List Event) (ih : Runs W events)
    (s : Watcher W) (seen : List String) (on : s.is_active ≡ true)
    (few : length seen + length (detected W (e ∷ events)) < 2 ^ 64 - 1) (k : Sound seen s) where
  Runs-end :
      (handle e s ≡ stopped e events s) × (detected W (e ∷ events) ≡ [])
      → Sound (seen ++ detected W (e ∷ events)) (handle_all (e ∷ events) s)
  Runs-end (h, d) =
      Sound-by seen _ (stopped e events s) _ (sym (ap (λ l. seen ++ l) d ∙ append-nil seen))
        (sym (
          handle_all-cons e events s
          ∙ ap (handle_all events) h
          ∙ handle_all_off events (stopped e events s) refl))
        (Keeps-stopped s seen k.0, k.1)

  Runs-skip :
      (handle e s ≡ s) × (detected W (e ∷ events) ≡ detected W events)
      → Sound (seen ++ detected W (e ∷ events)) (handle_all (e ∷ events) s)
  Runs-skip (h, d) =
      Sound-by _ _ _ _ (ap (λ l. seen ++ l) (sym d))
        (sym (handle_all-cons e events s ∙ ap (handle_all events) h))
        (ih s seen on (subst (λ l. length seen + length l < 2 ^ 64 - 1) d few) k)

  Runs-capture :
      (key : String)
      → W.key_of e.name ≡ some key
      → (handle e s ≡ (export_pcap_file e.export_ok e.name false s).0)
        × (detected W (e ∷ events) ≡ e.name ∷ detected W events)
      → Sound (seen ++ detected W (e ∷ events)) (handle_all (e ∷ events) s)
  Runs-capture key keyed (h, d) =
      Sound-by _ _ _ _
        (append_assoc seen (e.name ∷ []) (detected W events) ∙ ap (λ l. seen ++ l) (sym d))
        (sym (
          handle_all-cons e events s
          ∙ ap (handle_all events) (
              h
              ∙ export-turned named s seen e.name key e.export_ok keyed k.0 (omega (arith, room)))))
        (ih (turned s key e.name) (seen ++ e.name ∷ []) (is_active-turned s key e.name ∙ on)
          (omega (arith, room, length-append seen (e.name ∷ [])))
          (turned-Keeps named s seen e.name key keyed k.0, leaks-turned s key e.name ∙ k.1))
    where
      grown : length (detected W (e ∷ events)) ≡ length (detected W events) + 1
      grown = ap length d ∙ omega arith

      room : length seen + (1 + length (detected W events)) < 2 ^ 64 - 1
      room = omega (arith, few, grown)

module _ {W : WatcherLibs} (named : Named W) where
  handle_all-Sound : (events : List Event) → Runs W events
  handle_all-Sound [] s seen on few k =
      Sound-by seen _ s _ (sym (ap (λ l. seen ++ l) (detected-nil W) ∙ append-nil seen))
        (sym (handle_all-nil s)) k
  handle_all-Sound (e ∷ events) s seen on few k =
      let ih = handle_all-Sound events in
      elim (Bool-cases (captures W e)) [
        | inl c ↦
            let keyed = captured_key e events s c in
            Runs-capture named e events ih s seen on few k keyed.0 keyed.1
              (handle_capture e events s on c)
        | inr c ↦ elim (Bool-cases (ends W e)) [
          | inl x ↦ Runs-end named e events ih s seen on few k (handle_end e events s on c x)
          | inr x ↦ Runs-skip named e events ih s seen on few k (handle_skip e events s on c x)
        ]
      ]

start-Sound : (W : WatcherLibs) → Sound [] (start W)
unfolding start of_key
start-Sound W = (
  λ j. record {
    split = ground (arith, W.names.get-empty j);
    counted = ground (arith, W.counts.get-empty j);
    fresh = λ h. W.names.get-empty j;
    held = λ h. absurd (omega (arith, h));
    own = λ f e. absurd (ground (arith, W.names.get-empty j, e));
  },
  refl,
)

-- From the start, for every key: the files of the key that were handed to the exporter, then the
-- file that is held as the last one, are the files of the key that the loop has detected, in
-- order, each once, and no leak is reported. No file has the empty name as a capture file, and
-- fewer than 2 ^ 64 - 1 files are detected.
pub handle_all-exports :
    (W : WatcherLibs) (events : List Event) (key : String)
    → Named W
    → length (detected W events) < 2 ^ 64 - 1
    → (of_key W key (handle_all events (start W)).moved
          ++ to_list (W.names.get (handle_all events (start W)).last_pcap key)
        ≡ of_key W key (detected W events))
      × ((handle_all events (start W)).leaks ≡ 0)
unfolding start
handle_all-exports W events key named few =
    let k = handle_all-Sound named events (start W) [] refl (omega (arith, few)) (start-Sound W) in
    ((k.0 key).split, k.1)
