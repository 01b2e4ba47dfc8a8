-- ===== src/Fsnotify/Watcher/Events.antt =====
-- The cases of one event: what it does to the state, and what it adds to the files detected.
use pcap_sidecar.Common.{
  ◌-◌, ◌^◌, ◌<◌, ◌≤◌, ◌≡◌, refl, sym, ap, subst, ◌∙◌, String, Bool, true, false, ◌&&◌, some, List,
  [], ◌∷◌, ◌++◌, arith, string_eq, ◌==◌, if◌then◌else◌, length, Bool-cases, Option-cases, inl, inr,
}
use pcap_sidecar.Fsnotify.Watcher.Defs.{
  WatcherLibs, Watcher, Event, is_pcap, export_pcap_file, handle, handle_all,
}
use pcap_sidecar.Fsnotify.Watcher.Rotation.{
  of_key, KeepsKey, Keeps, count_and_rotate-turned, turned, turned-own, turned-other,
}

-- The capture files that the loop sees, up to the signal that ends it.
unfoldable pub detected : WatcherLibs → List Event → List String
detected W [] = []
detected W (e ∷ events) =
    let rest = detected W events in
    if e.is_create && is_pcap W e.name
    then e.name ∷ rest
    else if e.is_create && W.is_exit_signal e.name
    then []
    else rest

pub true≢false : ◌≡◌ {A = Bool} true false → ⊥
true≢false e = cc

-- `pcapDotExt` matches no empty name.
abbrev pub Named : WatcherLibs → Type 0
Named W = (file key : String) → W.key_of file ≡ some key → (file == "") ≡ false

pub length-of_key :
    (W : WatcherLibs) (key : String) (fs : List String) → length (of_key W key fs) ≤ length fs
unfolding of_key
length-of_key W key [] = omega arith
length-of_key W key (f ∷ fs) = ground (arith, length-of_key W key fs)

module _ {W : WatcherLibs} (named : Named W) where
  pub turned-Keeps :
      (s : Watcher W) (seen : List String) (file key : String)
      → W.key_of file ≡ some key
      → Keeps seen s
      → Keeps (seen ++ file ∷ []) (turned s key file)
  turned-Keeps s seen file key keyed k j = elim (Bool-cases (key == j)) [
    | inl e ↦
        subst (λ i. KeepsKey i (seen ++ file ∷ []) (turned s key file))
          ((string_eq.same_iff key j).0 e)
          (turned-own s seen file key keyed (named file key keyed) (k key))
    | inr ne ↦ turned-other s seen file key keyed (named file key keyed) j ne (k key) (k j)
  ]

  pub export-turned :
      (s : Watcher W) (seen : List String) (file key : String) (ok : Bool)
      → W.key_of file ≡ some key
      → Keeps seen s
      → length seen < 2 ^ 64 - 1
      → (export_pcap_file ok file false s).0 ≡ turned s key file
  unfolding export_pcap_file
  export-turned s seen file key ok keyed k few =
      rw (keyed, export_pcap_file)
        (count_and_rotate-turned s key seen file ok (k key)
          (omega (arith, length-of_key W key seen)))

abbrev pub captures : WatcherLibs → Event → Bool
captures W e = e.is_create && is_pcap W e.name

abbrev pub ends : WatcherLibs → Event → Bool
ends W e = e.is_create && W.is_exit_signal e.name

-- The cases of one event, for the state and for the files that are detected.
module _ {W : WatcherLibs} (e : Event) (events : List Event) (s : Watcher W) where
  pub handle_off : s.is_active ≡ false → handle e s ≡ s
  unfolding handle
  handle_off h = ground arith

  pub handle_capture :
      s.is_active ≡ true
      → captures W e ≡ true
      → (handle e s ≡ (export_pcap_file e.export_ok e.name false s).0)
        × (detected W (e ∷ events) ≡ e.name ∷ detected W events)
  unfolding handle detected
  handle_capture h c = (ground arith, ground arith)

  abbrev pub stopped : Watcher W
  stopped = record s { is_active = false; cancelled = true }

  pub handle_end :
      s.is_active ≡ true
      → captures W e ≡ false
      → ends W e ≡ true
      → (handle e s ≡ stopped) × (detected W (e ∷ events) ≡ [])
  unfolding handle detected
  handle_end h c x = (ground arith, ground arith)

  pub handle_skip :
      s.is_active ≡ true
      → captures W e ≡ false
      → ends W e ≡ false
      → (handle e s ≡ s) × (detected W (e ∷ events) ≡ detected W events)
  unfolding handle detected
  handle_skip h c x = (ground arith, ground arith)

  pub captured_key : captures W e ≡ true → (key : String) × (W.key_of e.name ≡ some key)
  captured_key c = elim (Option-cases (W.key_of e.name)) [
    | inl n ↦ absurd (true≢false (sym c ∙ ground arith))
    | inr k ↦ k
  ]

pub handle_all_off :
    {W : WatcherLibs} (events : List Event) (s : Watcher W)
    → s.is_active ≡ false
    → handle_all events s ≡ s
unfolding handle_all
handle_all_off [] s h = refl
handle_all_off (e ∷ events) s h =
    ap (handle_all events) (handle_off e events s h) ∙ handle_all_off events s h

pub Keeps-stopped :
    {W : WatcherLibs} (s : Watcher W) (seen : List String)
    → Keeps seen s
    → Keeps seen (record s { is_active = false; cancelled = true })
Keeps-stopped s seen k j = record {
  split = (k j).split;
  counted = (k j).counted;
  fresh = (k j).fresh;
  held = (k j).held;
  own = (k j).own;
}

pub is_active-turned :
    {W : WatcherLibs} (s : Watcher W) (key file : String)
    → (turned s key file).is_active ≡ s.is_active
unfolding turned
is_active-turned s key file = refl
