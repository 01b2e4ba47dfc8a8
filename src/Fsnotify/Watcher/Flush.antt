-- ===== src/Fsnotify/Watcher/Flush.antt =====
-- The flush of the source directory, which ends the watcher.
use pcap_sidecar.Common.{
  ℕ, ◌+◌, ◌%◌, ◌^◌, ◌<◌, ◌≡◌, refl, sym, ap, ◌∙◌, String, Bool, true, false, not, ◌&&◌, ◌||◌, ap₂,
  some, length, List, [], ◌∷◌, ◌++◌, arith, string_eq, if◌then◌else◌, Bool-cases, Option-cases, inl,
  inr,
}
use mathlib.Core.List.Permᴰ
use mathlib.Core.List.{append_assoc, append-nil, Permᴰ}
use pcap_sidecar.Fsnotify.Watcher.Defs.{
  WatcherLibs, Watcher, Entry, is_pcap, export_pcap_file, flush_file, flush_src_dir, run_exports,
}

-- The files that are to be flushed.
abbrev is_flushed : (Entry → Bool) → Entry → Bool
is_flushed validator entry = not entry.is_dir && validator entry

unfoldable pub flushed : (Entry → Bool) → List Entry → List Entry
flushed validator [] = []
flushed validator (entry ∷ entries) =
    let rest = flushed validator entries in
    if is_flushed validator entry then entry ∷ rest else rest

-- Every entry has a `FileInfo`.
unfoldable pub are_read : List Entry → Bool
are_read [] = true
are_read (entry ∷ entries) =
    let rest = are_read entries in (entry.is_dir || not entry.failed) && rest

-- The paths of the capture files.
unfoldable pub pcaps : WatcherLibs → List Entry → List String
pcaps W [] = []
pcaps W (entry ∷ entries) =
    let rest = pcaps W entries in if is_pcap W entry.path then entry.path ∷ rest else rest

started_files :
    (validator : Entry → Bool) (entries : List Entry) (pending : ℕ) (started : List Entry)
    → are_read entries ≡ true
    → pending + length (flushed validator entries) < 2 ^ 32
    → flush_src_dir validator entries (pending, started)
      ≡ some (pending + length (flushed validator entries), started ++ flushed validator entries)
unfolding flush_src_dir flushed are_read
started_files validator [] pending started read room =
    ap₂ (λ n l. some (n, l)) (omega arith) (sym (append-nil started))
started_files validator (entry ∷ entries) pending started read room =
    elim (Bool-cases (is_flushed validator entry)) [
      | inl e ↦
          rw (ok, taken e, e, small e)
            (started_files validator entries (pending + 1) (started ++ entry ∷ []) rest
                (ground (arith, e, room))
              ∙ ap₂ (λ n l. some (n, l)) (omega arith)
                  (append_assoc started (entry ∷ []) (flushed validator entries)))
      | inr e ↦
          rw (ok, taken e, e)
            (started_files validator entries pending started rest (ground (arith, e, room)))
    ]
  where
    ok : (not entry.is_dir && entry.failed) ≡ false
    ok = ground (arith, read)

    rest : are_read entries ≡ true
    rest = ground (arith, read)

    taken :
        {b : Bool}
        → is_flushed validator entry ≡ b
        → (entry.is_dir || not (validator entry)) ≡ not b
    taken e = ground (arith, e)

    small : is_flushed validator entry ≡ true → (pending + 1) % 2 ^ 32 ≡ pending + 1
    small e = ground (arith, room, e)

export_flushed :
    {W : WatcherLibs} (ok : Bool) (path : String) (s : Watcher W)
    → s.is_active ≡ false
    → (export_pcap_file ok path true s).0
      ≡ record s { moved = s.moved ++ (if is_pcap W path then path ∷ [] else []) }
unfolding export_pcap_file flush_file
export_flushed {W} ok path s off = elim (Option-cases (W.key_of path)) [
  | inl e ↦ ground (arith, append-nil s.moved)
  | inr (k, e) ↦ ground arith
]

pcaps_head :
    (W : WatcherLibs) (path : String) (rest : List String)
    → (if is_pcap W path then path ∷ [] else []) ++ rest
      ≡ (if is_pcap W path then path ∷ rest else rest)
pcaps_head W path rest = ground arith

run_exports-inactive :
    {W : WatcherLibs} (order : List Entry) (s : Watcher W)
    → s.is_active ≡ false
    → run_exports order s ≡ record s { moved = s.moved ++ pcaps W order }
unfolding run_exports pcaps
run_exports-inactive [] s off = ap (λ l. record s { moved = l }) (sym (append-nil s.moved))
run_exports-inactive {W} (entry ∷ order) s off =
    let one = if is_pcap W entry.path then entry.path ∷ [] else [] in
    ap (λ w. run_exports order w) (export_flushed entry.export_ok entry.path s off)
    ∙ run_exports-inactive order (record s { moved = s.moved ++ one }) off
    ∙ ap (λ l. record s { moved = l })
        (append_assoc s.moved one (pcaps W order)
          ∙ ap (λ l. s.moved ++ l) (pcaps_head W entry.path (pcaps W order)))

pcaps-Perm : (W : WatcherLibs) (xs ys : List Entry) → Permᴰ xs ys → Permᴰ (pcaps W xs) (pcaps W ys)
unfolding pcaps
pcaps-Perm W xs ys Permᴰ.nil = Permᴰ.nil
pcaps-Perm W xs ys (Permᴰ.cons {a} {b} {l₁} {l₂} e p) =
    rw (sym e) (elim (Bool-cases (is_pcap W a.path)) [
      | inl h ↦ rw h (Permᴰ.cons refl (pcaps-Perm W l₁ l₂ p))
      | inr h ↦ rw h (pcaps-Perm W l₁ l₂ p)
    ])
pcaps-Perm W xs ys (Permᴰ.swap {a} {b} {l = l} e d) =
    rw (sym e, sym d)
      (elim (Bool-cases (is_pcap W a.path)) [
        | inl h ↦ elim (Bool-cases (is_pcap W b.path)) [
          | inl k ↦ rw (h, k) (Permᴰ.swap refl refl)
          | inr k ↦ rw (h, k) (Permᴰ.refl _)
        ]
        | inr h ↦ rw h (Permᴰ.refl _)
      ])
pcaps-Perm W xs ys (Permᴰ.trans {l₂ = m} p q) =
    Permᴰ.trans (pcaps-Perm W xs m p) (pcaps-Perm W m ys q)

-- Once the watcher is not active, and when every entry has a `FileInfo`: the flush starts an export
-- for exactly the files that the validator accepts and returns their number, if this is below
-- 2 ^ 32; and in whatever order these exports run, they hand the capture files among them, each
-- once, to the exporter and change nothing else.
pub flush_src_dir-flushes :
    {W : WatcherLibs} (validator : Entry → Bool) (entries order : List Entry) (s : Watcher W)
    → s.is_active ≡ false
    → are_read entries ≡ true
    → length (flushed validator entries) < 2 ^ 32
    → Permᴰ (flushed validator entries) order
    → (flush_src_dir validator entries (0, [])
        ≡ some (length (flushed validator entries), flushed validator entries))
      × (run_exports order s ≡ record s { moved = s.moved ++ pcaps W order })
      × Permᴰ (pcaps W (flushed validator entries)) (pcaps W order)
flush_src_dir-flushes {W} validator entries order s off read room p = (
  started_files validator entries 0 [] read (omega (arith, room))
      ∙ ap (λ n. some (n, flushed validator entries)) (omega arith),
  run_exports-inactive order s off,
  pcaps-Perm W (flushed validator entries) order p,
)
