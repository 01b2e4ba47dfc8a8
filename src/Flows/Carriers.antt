-- ===== src/Flows/Carriers.antt =====
-- `flowLockCarrier` and what the mutex does to its counters.
use pcap_sidecar.Common.{
  ℕ, zero, suc, ◌+◌, ◌-◌, ◌%◌, ◌^◌, Bool, true, false, ◌&&◌, not, ltb, nat_eq, ◌==◌, if◌then◌else◌,
}

pub record Carrier : Type 0 where
  -- The int64 `activeRequests`, as a number modulo 2 ^ 64.
  pub active : ℕ
  -- The counter of the `WaitGroup`, and whether it was to go below 0, which panics.
  pub wg : ℕ
  pub crashed : Bool
  pub released : Bool
  pub is_http2 : Bool
  -- `mu`
  pub locked : Bool

-- `newFlowLockCarrier`
unfoldable pub new_flow_lock_carrier : Carrier
new_flow_lock_carrier = record {
  active = 0;
  wg = 0;
  crashed = false;
  released = false;
  is_http2 = false;
  locked = false;
}

-- Signs of an int64.
abbrev pub is_nonneg : ℕ → Bool
is_nonneg a = ltb a (2 ^ 63)

abbrev pub is_positive : ℕ → Bool
is_positive a = is_nonneg a && not (a == 0)

-- `activeRequests.Add(1)` and `activeRequests.Add(-1)`
abbrev pub plus_one : ℕ → ℕ
plus_one a = (a + 1) % 2 ^ 64

abbrev pub minus_one : ℕ → ℕ
minus_one a = (a + (2 ^ 64 - 1)) % 2 ^ 64

unfoldable pub wg_done : Carrier → Carrier
wg_done c = if c.wg == 0 then record c { crashed = true } else record c { wg = c.wg - 1 }

-- A tracked request.
unfoldable pub count_request : Carrier → Carrier
count_request c =
    if is_positive (plus_one c.active)
    then record c { active = plus_one c.active; wg = c.wg + 1 }
    else record c { active = plus_one c.active }

-- A response: `matched` is what stands after the sign in the test.
unfoldable pub count_response : Bool → Carrier → Carrier
unfolding wg_done
count_response matched c =
    if is_nonneg (minus_one c.active) && matched
    then wg_done (record c { active = minus_one c.active })
    else record c { active = minus_one c.active }

-- The end of the function of the timer.
unfoldable pub count_unblocked : Carrier → Carrier
unfolding wg_done
count_unblocked c =
    if is_nonneg (minus_one c.active)
    then wg_done (record c { active = minus_one c.active })
    else record c { active = minus_one c.active }

-- A round of the last loop of `untrackConnection`.
abbrev pub release_request : Carrier → Carrier
release_request c = wg_done (record c { active = minus_one c.active })

-- The loop, when no other goroutine counts on the carrier meanwhile: it ends when `Done` panics;
-- `n` rounds are enough for n requests.
unfoldable pub release_rounds : ℕ → Carrier → Carrier
unfolding wg_done
release_rounds zero c = c
release_rounds (suc n) c =
    let rest = release_rounds n (release_request c) in
    if is_positive c.active then (if c.wg == 0 then release_request c else rest) else c

unfoldable pub release_all : Carrier → Carrier
unfolding release_rounds
release_all c = release_rounds (if is_positive c.active then c.active else 0) c

-- Whether `Done` panics in the loop.
abbrev pub release_panics : Carrier → Bool
release_panics c = is_positive c.active && ltb c.wg c.active
