-- ===== src/Fsnotify/Endings.antt =====
-- The start and the end of the watcher: who may end it, in main of pcap-fsnotify/main.go.
use pcap_sidecar.Common.{
  ℕ, ◌+◌, ◌-◌, ◌<◌, ◌==◌, Bool-cases, ◌≡◌, ◌≢◌, ◌⊎◌, refl, Bool, true, false, not, arith, nat_eq,
  if◌then◌else◌, inl, inr, holds_if,
}

-- `isActive`, the calls of `cancel`, and where the main function is.
pub data MainAt : Type 0 where
  -- It tests the error of `watcher.Add`.
  starting : MainAt
  -- It waits for the context.
  waiting : MainAt
  -- It flushes the directory.
  flushing : MainAt

pub record Life : Type 0 where
  pub is_active : Bool
  pub watch_failed : Bool
  -- The goroutines between their `CompareAndSwap` and their `cancel`.
  pub cancelling : ℕ
  pub cancels : ℕ
  pub main_at : MainAt

-- The state once the directory is watched, or not.
unfoldable pub new_life : Bool → Life
new_life watch_failed = record {
  is_active = not watch_failed;
  watch_failed = watch_failed;
  cancelling = 0;
  cancels = 0;
  main_at = starting;
}

-- `isActive.CompareAndSwap(true, false)`: the goroutine for which it succeeds is to cancel.
unfoldable pub deactivate : Life → Life
deactivate l =
    if l.is_active then record l { is_active = false; cancelling = l.cancelling + 1 } else l

-- The call of `cancel` that follows, after the log and the removal of a file.
unfoldable pub cancel : Life → Life
cancel l = record l { cancelling = l.cancelling - 1; cancels = l.cancels + 1 }

-- What main does about the error before it cancels and waits.
unfoldable pub check_watch : Life → Life
unfolding deactivate
check_watch l =
    let l' = if l.watch_failed then deactivate l else l in record l' { main_at = waiting }

-- A step of one of the goroutines: main, the event loop on the signal of tcpdumpw, the function of
-- the timer that a signal starts, the wait for the lock file after a signal, and the one of them that
-- is to cancel.
pub data LifeStep (l : Life) : Life → Type 0 where
  checks : l.main_at ≡ starting → LifeStep l (check_watch l)
  detects_exit : LifeStep l (deactivate l)
  times_out : LifeStep l (deactivate l)
  has_lock : LifeStep l (deactivate l)
  cancels_context : l.cancelling ≢ 0 → LifeStep l (cancel l)
  goes_on : l.main_at ≡ waiting → l.cancels ≢ 0 → LifeStep l (record l { main_at = flushing })

pub data LifeReaches (l : Life) : Life → Type 0 where
  lives : LifeReaches l l
  moves : {a b : Life} → LifeReaches l a → LifeStep a b → LifeReaches l b

-- One goroutine is to cancel, or has, exactly when the watcher is not active any more.
record IsTied (l : Life) : Type 0 where
  watched : l.watch_failed ≡ false
  tied :
      ((l.is_active ≡ true) × (l.cancelling + l.cancels ≡ 0))
      ⊎ ((l.is_active ≡ false) × (l.cancelling + l.cancels ≡ 1))

deactivate-IsTied : (l : Life) → IsTied l → IsTied (deactivate l)
unfolding deactivate
deactivate-IsTied l t = elim t.tied [
  | inl (a, c) ↦
      rw (deactivate, a) (record { watched = t.watched; tied = inr (refl, omega (arith, c)) })
  | inr (a, c) ↦ holds_if IsTied l.is_active _ _ (λ h. absurd (ground (arith, a, h))) (λ h. t)
]

LifeStep-IsTied : (l m : Life) → LifeStep l m → IsTied l → IsTied m
unfolding check_watch cancel
LifeStep-IsTied l m (checks e) t =
    rw (check_watch, t.watched) (record { watched = refl; tied = t.tied })
LifeStep-IsTied l m detects_exit t = deactivate-IsTied l t
LifeStep-IsTied l m times_out t = deactivate-IsTied l t
LifeStep-IsTied l m has_lock t = deactivate-IsTied l t
LifeStep-IsTied l m (cancels_context n) t = record {
  watched = t.watched;
  tied = elim t.tied [
    | inl (a, c) ↦ absurd (n (omega (arith, c)))
    | inr (a, c) ↦ inr (a, one c (positive n))
  ];
}
  where
    positive : l.cancelling ≢ 0 → 0 < l.cancelling
    positive n = elim (Bool-cases (l.cancelling == 0)) [
      | inl h ↦ absurd (n ((nat_eq.same_iff l.cancelling 0).0 h))
      | inr h ↦ ground (arith, h)
    ]

    one : l.cancelling + l.cancels ≡ 1 → 0 < l.cancelling → (l.cancelling - 1) + (l.cancels + 1) ≡ 1
    one c p = omega (arith, c, p)
LifeStep-IsTied l m (goes_on e c) t = record { watched = t.watched; tied = t.tied }

LifeReaches-IsTied : (l m : Life) → LifeReaches l m → IsTied l → IsTied m
LifeReaches-IsTied l m lives t = t
LifeReaches-IsTied l m (moves {a} {b} r s) t = LifeStep-IsTied a b s (LifeReaches-IsTied l a r t)

-- When the directory is watched, in every state that the goroutines reach, in any order: the
-- context is cancelled at most once, no goroutine has cancelled it or is about to while the watcher
-- is active, and once the watcher is not active any more either it is cancelled or exactly one
-- goroutine is between its `CompareAndSwap` and its call of `cancel`.
pub life-tied :
    (l : Life)
    → LifeReaches (new_life false) l
    → ((l.is_active ≡ true) × (l.cancelling + l.cancels ≡ 0))
      ⊎ ((l.is_active ≡ false) × (l.cancelling + l.cancels ≡ 1))
unfolding new_life
life-tied l r =
    (LifeReaches-IsTied (new_life false) l r
      (record { watched = refl; tied = inl (refl, omega arith) })).tied

-- The context is not cancelled, and never will be.
record IsStuck (l : Life) : Type 0 where
  idle : l.is_active ≡ false
  nobody : l.cancelling ≡ 0
  alive : l.cancels ≡ 0
  before : l.main_at ≢ flushing

deactivate-IsStuck : (l : Life) → IsStuck l → IsStuck (deactivate l)
unfolding deactivate
deactivate-IsStuck l s =
    holds_if IsStuck l.is_active _ _ (λ h. absurd (ground (arith, s.idle, h))) (λ h. s)

waiting_is_before : ◌≢◌ {A = MainAt} waiting flushing
waiting_is_before e = absurd (ground (arith, e))

LifeStep-IsStuck : (l m : Life) → LifeStep l m → IsStuck l → IsStuck m
unfolding check_watch
LifeStep-IsStuck l m (checks e) s =
    let q =
      holds_if IsStuck l.watch_failed (deactivate l) l (λ h. deactivate-IsStuck l s) (λ h. s) in
    record { idle = q.idle; nobody = q.nobody; alive = q.alive; before = waiting_is_before }
LifeStep-IsStuck l m detects_exit s = deactivate-IsStuck l s
LifeStep-IsStuck l m times_out s = deactivate-IsStuck l s
LifeStep-IsStuck l m has_lock s = deactivate-IsStuck l s
LifeStep-IsStuck l m (cancels_context n) s = absurd (n s.nobody)
LifeStep-IsStuck l m (goes_on e c) s = absurd (c s.alive)

LifeReaches-IsStuck : (l m : Life) → LifeReaches l m → IsStuck l → IsStuck m
LifeReaches-IsStuck l m lives s = s
LifeReaches-IsStuck l m (moves {a} {b} r e) s = LifeStep-IsStuck a b e (LifeReaches-IsStuck l a r s)

-- When the directory cannot be watched, no goroutine ever cancels the context, signals included, and
-- main never comes to the flush of the directory.
pub life-stuck :
    (l : Life) → LifeReaches (new_life true) l → (l.cancels ≡ 0) × (l.main_at ≢ flushing)
unfolding new_life
life-stuck l r =
    let s = LifeReaches-IsStuck (new_life true) l r (record {
      idle = refl;
      nobody = refl;
      alive = refl;
      before = λ e. absurd (ground (arith, e));
    }) in
    (s.alive, s.before)
