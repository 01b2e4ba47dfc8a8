-- ===== src/Supervisor/Devices.antt =====
-- The deadlines of the engines.
use pcap_sidecar.Common.{ℕ, ◌+◌, ◌<◌, ◌≤◌, ◌≡◌, arith}
use pcap_sidecar.Supervisor.Stops.{
  Stop, new_stop, StopStep, sends, takes, fails, closes, StopReaches, stays, steps,
}

-- Each engine that waits has a deadline that is its own.
record IsServed (s : Stop) : Type 0 where
  enough : s.waiting ≤ s.buffered + s.unsent
  fits : s.buffered + s.unsent ≤ s.tasks

StopStep-IsServed : (s t : Stop) → StopStep s t → IsServed s → IsServed t
StopStep-IsServed s t (sends n e o h) i = record {
  enough = omega (arith, i.enough, e);
  fits = omega (arith, i.fits, e);
}
StopStep-IsServed s t (takes n m e h) i = record {
  enough = omega (arith, i.enough, e, h);
  fits = omega (arith, i.fits, h);
}
StopStep-IsServed s t (fails n e) i = record { enough = omega (arith, i.enough, e); fits = i.fits }
StopStep-IsServed s t closes i = record { enough = i.enough; fits = i.fits }

StopReaches-IsServed : (s t : Stop) → StopReaches s t → IsServed s → IsServed t
StopReaches-IsServed s t stays i = i
StopReaches-IsServed s t (steps {a} {b} r e) i =
    StopStep-IsServed a b e (StopReaches-IsServed s a r i)

-- In every state that the captures of a job reach after their context is done: the goroutine that
-- sends the deadlines never waits for room in the channel; an engine that waits for its deadline
-- finds one in the channel or one is still to be sent; and once all are sent, there is one in the
-- channel for each engine that waits, so that none receives nil when the channel is closed.
pub deadlines-served :
    (n : ℕ) (s : Stop)
    → StopReaches (new_stop n) s
    → (0 < s.unsent → s.buffered < s.tasks)
      × (0 < s.waiting → 0 < s.buffered + s.unsent)
      × (s.unsent ≡ 0 → s.waiting ≤ s.buffered)
unfolding new_stop
deadlines-served n s r =
    let i =
      StopReaches-IsServed (new_stop n) s r (record { enough = omega arith; fits = omega arith }) in
    (
      λ h. omega (arith, i.fits, h),
      λ h. omega (arith, i.enough, h),
      λ e. omega (arith, i.enough, e),
    )
