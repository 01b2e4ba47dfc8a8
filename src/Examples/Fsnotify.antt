-- ===== src/Examples/Fsnotify.antt =====
-- The exporter and the watcher at concrete files and events.
use pcap_sidecar.Common.{
  ◌⊎◌, ◌≢◌, ℕ, Bool-cases, inl, inr, ap, sym, ◌∙◌, ◌+◌, ◌≡◌, refl, String, Bool, true, false,
  Option, length, none, some, List, [], ◌∷◌, ◌++◌, arith, ◌==◌, string_eq, nat_eq, if◌then◌else◌,
}
use mathlib.Core.List.{Permᴰ}
use pcap_sidecar.Samples.Maps.{list_map}
use pcap_sidecar.Fsnotify.Endings.{
  Life, flushing, new_life, deactivate, check_watch, lives, moves, checks, detects_exit, times_out,
  life-tied, life-stuck,
}
use pcap_sidecar.Fsnotify.Exporter.{
  Attempt, export, copy_source, export_retrying, fuse_export, library_export, exported, encode,
  arrived,
}
use pcap_sidecar.Fsnotify.Exporter.Laws.{
  export_removes, fuse_export_retried, fuse_export_gives_up, library_export_loses,
  library_export_hides, with_source, partials,
}
use pcap_sidecar.Fsnotify.Watcher.Defs.{
  WatcherLibs, Watcher, Event, Entry, start, handle_all, flush_src_dir, run_exports, handle,
  export_pcap_file, count_and_rotate, next_iteration, move_last,
}
use pcap_sidecar.Fsnotify.Watcher.Rotation.{of_key, to_list}
use pcap_sidecar.Fsnotify.Watcher.Queue.{handle_all-exports}
use pcap_sidecar.Fsnotify.Watcher.Events.{Named, detected}
use pcap_sidecar.Fsnotify.Watcher.Flush.{flush_src_dir-flushes, pcaps, flushed, are_read}

-- A stand-in for gzip that doubles the first byte.
abbrev zip : List ℕ → List ℕ
zip [] = []
zip (b ∷ bs) = b ∷ b ∷ bs

abbrev works : Attempt
works = record { open_fails = false; copy_stops_at = none; remove_fails = false; arrives = none }

abbrev stops : Attempt
stops = record { open_fails = false; copy_stops_at = some 2; remove_fails = false; arrives = none }

abbrev capture : List ℕ
capture = 7 ∷ 8 ∷ 9 ∷ []

export_removes_example :
    ((export zip true true works (with_source capture [])).0 ≡ exported 3)
    × ((export zip true true works (with_source capture [])).1.target
        ≡ [] ++ arrived works (encode zip true capture))
    × (true ≡ true)
unfolding export copy_source
export_removes_example =
    export_removes zip true true works (with_source capture []) capture refl refl

-- The end of the compressing writer fails after one byte.
abbrev cut_short : Attempt
cut_short = record {
  open_fails = false;
  copy_stops_at = none;
  remove_fails = false;
  arrives = some 1;
}

fuse_export_retried_example :
    (fuse_export zip false false true (stops ∷ works ∷ []) (with_source capture [])).1.target
    ≡ ([] ++ partials zip false capture (stops ∷ [])) ++ arrived works (encode zip false capture)
fuse_export_retried_example =
    fuse_export_retried zip false true capture (stops ∷ []) [] works [] (refl, tt) refl

-- Two bytes of the failed attempt stand before the file.
retried_target :
    (fuse_export zip false false true (stops ∷ works ∷ []) (with_source capture [])).1.target
    ≡ 7 ∷ 8 ∷ 7 ∷ 8 ∷ 9 ∷ []
unfolding fuse_export export_retrying export copy_source
retried_target = refl

test_fuse_export_gives_up :
    fuse_export zip false false true (stops ∷ []) (with_source capture [])
    ≡ ((0, false), with_source capture ([] ++ partials zip false capture (stops ∷ [])))
test_fuse_export_gives_up = fuse_export_gives_up zip false true capture (stops ∷ []) [] (refl, tt)

test_library_export_loses :
    ((library_export zip true false true works (with_source capture [])).0.1 ≡ true)
    × ((library_export zip true false true works (with_source capture [])).1.source ≡ none)
test_library_export_loses = library_export_loses zip false true capture works [] refl refl refl

test_library_export_hides :
    ((library_export zip false false true stops (with_source capture [])).0.1 ≡ false)
    × ((library_export zip false false true stops (with_source capture [])).1.source ≡ some capture)
test_library_export_hides = library_export_hides zip false true capture stops [] refl

abbrev key_of_sample : String → Option String
key_of_sample f =
    if f == "a1"
    then some "a"
    else if f == "a2"
    then some "a"
    else if f == "b1"
    then some "b"
    else none

abbrev libs : WatcherLibs
libs = record {
  counts = list_map;
  names = list_map;
  key_of = key_of_sample;
  is_exit_signal = λ f. f == "TCPDUMPW_EXITED";
}

none-some : (key : String) → ◌≡◌ {A = Option String} none (some key) → ⊥
none-some key e = cc

libs-Named : Named libs
libs-Named file key e = elim (Bool-cases (file == "")) [
  | inl h ↦ absurd (none-some key (ap key_of_sample (sym ((string_eq.same_iff file "").0 h)) ∙ e))
  | inr h ↦ h
]

abbrev created : String → Event
created f = record { is_create = true; name = f; export_ok = true }

abbrev three : List Event
three = created "a1" ∷ created "b1" ∷ created "a2" ∷ created "TCPDUMPW_EXITED" ∷ created "a1" ∷ []

handle_all-exports_example :
    (of_key libs "a" (handle_all three (start libs)).moved
        ++ to_list (libs.names.get (handle_all three (start libs)).last_pcap "a")
      ≡ of_key libs "a" (detected libs three))
    × ((handle_all three (start libs)).leaks ≡ 0)
unfolding detected
handle_all-exports_example = handle_all-exports libs three "a" libs-Named (omega arith)

moved_files : (handle_all three (start libs)).moved ≡ "a1" ∷ []
unfolding handle_all handle start export_pcap_file count_and_rotate next_iteration move_last
moved_files = refl

abbrev entry_of : String → Entry
entry_of f = record { path = f; is_dir = false; failed = false; export_ok = true }

abbrev accept : Entry → Bool
accept e = true

abbrev ended : Watcher libs
ended = record {
  is_active = false;
  cancelled = true;
  counters = [];
  last_pcap = [];
  moved = [];
  leaks = 0;
}

abbrev entries_of_walk : List Entry
entries_of_walk = entry_of "a1" ∷ entry_of "x" ∷ entry_of "b1" ∷ []

-- The exports run in another order than they were started in.
flush_src_dir-flushes_example :
    (flush_src_dir accept entries_of_walk (0, [])
      ≡ some (length (flushed accept entries_of_walk), flushed accept entries_of_walk))
    × (run_exports (entry_of "x" ∷ entry_of "a1" ∷ entry_of "b1" ∷ []) ended ≡ record ended {
      moved = [] ++ pcaps libs (entry_of "x" ∷ entry_of "a1" ∷ entry_of "b1" ∷ []);
    })
    × Permᴰ
        (pcaps libs (flushed accept entries_of_walk))
        (pcaps libs (entry_of "x" ∷ entry_of "a1" ∷ entry_of "b1" ∷ []))
unfolding flushed are_read
flush_src_dir-flushes_example =
    flush_src_dir-flushes accept entries_of_walk (entry_of "x" ∷ entry_of "a1" ∷ entry_of "b1" ∷ [])
      ended refl refl (omega arith) (Permᴰ.swap refl refl)

-- A file that could not be read.
test_flush_src_dir :
    flush_src_dir accept (record (entry_of "a1") { failed = true } ∷ []) (0, []) ≡ none
unfolding flush_src_dir
test_flush_src_dir = refl

-- The signal of tcpdumpw comes before main waits.
abbrev deactivated : Life
deactivated = deactivate (new_life false)

life-tied_example :
    ((deactivated.is_active ≡ true) × (deactivated.cancelling + deactivated.cancels ≡ 0))
    ⊎ ((deactivated.is_active ≡ false) × (deactivated.cancelling + deactivated.cancels ≡ 1))
life-tied_example = life-tied deactivated (moves lives detects_exit)

-- A signal comes while the directory is not watched.
abbrev signalled : Life
signalled = deactivate (check_watch (new_life true))

life-stuck_example : (signalled.cancels ≡ 0) × (signalled.main_at ≢ flushing)
unfolding new_life
life-stuck_example = life-stuck signalled (moves (moves lives (checks refl)) times_out)
