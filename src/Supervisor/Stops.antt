-- ===== src/Supervisor/Stops.antt =====
-- The end of the captures: the deadlines that `waitJobDone` sends to the engines of `start`, and
-- what `waitDone` does.
use pcap_sidecar.Common.{ℕ, suc, ◌+◌, ◌<◌, ◌≡◌, Bool, true, false, List, [], ◌∷◌, ◌++◌}
use pcap_sidecar.Supervisor.Tasks.{PcapTask}

-- The channel of deadlines, with room for `tasks` of them.
pub record Stop : Type 0 where
  pub tasks : ℕ
  -- The deadlines that are not sent yet, those in the channel, and the engines that have not taken
  -- theirs.
  pub unsent : ℕ
  pub buffered : ℕ
  pub waiting : ℕ
  pub closed : Bool

-- The context of `start` is done, and no engine has taken its deadline.
unfoldable pub new_stop : ℕ → Stop
new_stop n = record { tasks = n; unsent = n; buffered = 0; waiting = n; closed = false }

-- A step of the goroutine that sends, of an engine, or of `start`, which closes the channel when the
-- engines have ended or its timer has run out; to send after that would panic.
pub data StopStep (s : Stop) : Stop → Type 0 where
  sends :
      (n : ℕ)
      → s.unsent ≡ suc n
      → s.closed ≡ false
      → s.buffered < s.tasks
      → StopStep s (record s { unsent = n; buffered = s.buffered + 1 })
  takes :
      (n m : ℕ)
      → s.waiting ≡ suc n
      → s.buffered ≡ suc m
      → StopStep s (record s { waiting = n; buffered = m })
  -- An engine that has failed ends without a deadline.
  fails : (n : ℕ) → s.waiting ≡ suc n → StopStep s (record s { waiting = n })
  closes : StopStep s (record s { closed = true })

pub data StopReaches (s : Stop) : Stop → Type 0 where
  stays : StopReaches s s
  steps : {a b : Stop} → StopReaches s a → StopStep a b → StopReaches s b

-- The calls of `waitDone`, in order.
pub data Ending (A : Type 0) : Type 0 where
  rotates : A → Ending A
  closes_writer : A → Ending A
  -- The file that tells the watcher to end; the flag is whether it was made.
  signals : Bool → Ending A
  unlocks : Bool → Ending A

abbrev pub end_writers : {A : Type 0} → List A → List (Ending A)
end_writers [] = []
end_writers (w ∷ writers) = rotates w ∷ closes_writer w ∷ end_writers writers

module _ {E A : Type 0} where
  abbrev pub end_tasks : List (PcapTask E A) → List (Ending A)
  end_tasks [] = []
  end_tasks (t ∷ tasks) = end_writers t.writers ++ end_tasks tasks

  -- `waitDone` once the wait group is empty, by whether the file and the lock give no error.
  unfoldable pub wait_done : List (PcapTask E A) → Bool → Bool → List (Ending A)
  wait_done tasks created unlocked = end_tasks tasks ++ signals created ∷ unlocks unlocked ∷ []
