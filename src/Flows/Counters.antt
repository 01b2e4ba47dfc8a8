-- ===== src/Flows/Counters.antt =====
-- How the counters of a carrier move: the requests that are active never outnumber the wait group,
-- and what the wait group has beyond them never gets less.
use pcap_sidecar.Common.{
  ℕ, zero, suc, ◌+◌, ◌-◌, ◌%◌, ◌^◌, ◌<◌, ◌≤◌, ◌≡◌, refl, subst, ◌∙◌, Bool, true, false, holds_if,
  ◌==◌, arith, nat_eq, if◌then◌else◌,
}
use pcap_sidecar.Flows.Carriers.{
  Carrier, new_flow_lock_carrier, is_nonneg, is_positive, wg_done, count_request, count_response,
  count_unblocked, release_request, release_rounds, release_all,
}

-- The requests that are active, 0 for a negative number.
unfoldable pub active_requests : Carrier → ℕ
active_requests c = if is_nonneg c.active then c.active else 0

-- What the wait group has beyond the active requests.
unfoldable pub excess : Carrier → ℕ
unfolding active_requests
excess c = c.wg - active_requests c

-- The number of active requests is within `j` of 0, and the wait group covers it.
pub record Fits (j : ℕ) (c : Carrier) : Type 0 where
  pub safe : c.crashed ≡ false
  pub word : c.active < 2 ^ 64
  pub near : (c.active + j) % 2 ^ 64 ≤ j + j
  pub covered : active_requests c ≤ c.wg

-- A change of a carrier by at most `k` steps of its counter.
pub record Moves (k : ℕ) (c c' : Carrier) : Type 0 where
  pub fits : (j : ℕ) → j + k < 2 ^ 63 → Fits j c → Fits (j + k) c'
  pub grows : (j : ℕ) → j + k < 2 ^ 63 → Fits j c → excess c ≤ excess c'

pub request-Moves : (c : Carrier) → Moves 1 c (count_request c)
unfolding count_request active_requests excess
request-Moves c = record {
  fits = λ j b f. record {
    safe = ground (arith, f.safe);
    word = ground arith;
    near = ground (arith, f.word, f.near, b);
    covered = ground (arith, f.word, f.near, f.covered, b);
  };
  grows = λ j b f. ground (arith, f.word, f.near, f.covered, b);
}

pub response-Moves : (matched : Bool) (c : Carrier) → Moves 1 c (count_response matched c)
unfolding count_response wg_done active_requests excess
response-Moves matched c = record {
  fits = λ j b f. record {
    safe = ground (arith, f.safe, f.word, f.near, f.covered, b);
    word = ground arith;
    near = ground (arith, f.word, f.near, b);
    covered = ground (arith, f.word, f.near, f.covered, b);
  };
  grows = λ j b f. ground (arith, f.word, f.near, f.covered, b);
}

pub unblocked-Moves : (c : Carrier) → Moves 1 c (count_unblocked c)
unfolding count_unblocked wg_done active_requests excess
unblocked-Moves c = record {
  fits = λ j b f. record {
    safe = ground (arith, f.safe, f.word, f.near, f.covered, b);
    word = ground arith;
    near = ground (arith, f.word, f.near, b);
    covered = ground (arith, f.word, f.near, f.covered, b);
  };
  grows = λ j b f. ground (arith, f.word, f.near, f.covered, b);
}

-- A change that leaves the counters.
pub same-Moves :
    (c c' : Carrier) → c'.active ≡ c.active → c'.wg ≡ c.wg → c'.crashed ≡ c.crashed → Moves 0 c c'
unfolding active_requests excess
same-Moves c c' a w x = record {
  fits = λ j b f. record {
    safe = x ∙ f.safe;
    word = omega (arith, a, f.word);
    near = ground (arith, a, f.near);
    covered = ground (arith, a, w, f.covered);
  };
  grows = λ j b f. ground (arith, a, w);
}

Fits-wider : (j k : ℕ) (c : Carrier) → j + k < 2 ^ 63 → Fits j c → Fits (j + k) c
Fits-wider j k c b f = record {
  safe = f.safe;
  word = f.word;
  near = omega (arith, f.near, f.word, b);
  covered = f.covered;
}

pub no-Moves : (k : ℕ) (c : Carrier) → Moves k c c
no-Moves k c = record { fits = λ j b f. Fits-wider j k c b f; grows = λ j b f. omega arith }

pub Moves-trans : (k m : ℕ) (c d e : Carrier) → Moves k c d → Moves m d e → Moves (k + m) c e
Moves-trans k m c d e p q = record {
  fits = λ j b f.
      subst (λ n. Fits n e) (omega arith)
        (q.fits (j + k) (omega (arith, b)) (p.fits j (omega (arith, b)) f));
  grows = λ j b f. omega (
    arith,
    p.grows j (omega (arith, b)) f,
    q.grows (j + k) (omega (arith, b)) (p.fits j (omega (arith, b)) f),
  );
}

pub Moves-wider : (k m : ℕ) (c d : Carrier) → Moves k c d → Moves (k + m) c d
Moves-wider k m c d p = Moves-trans k m c d d p (no-Moves m d)

release_request-Moves : (c : Carrier) → is_positive c.active ≡ true → Moves 0 c (release_request c)
unfolding wg_done active_requests excess
release_request-Moves c p = record {
  fits = λ j b f. record {
    safe = ground (arith, f.safe, f.word, f.near, f.covered, b, p);
    word = ground (arith, f.word, p);
    near = ground (arith, f.word, f.near, b, p);
    covered = ground (arith, f.word, f.near, f.covered, b, p);
  };
  grows = λ j b f. ground (arith, f.word, f.near, f.covered, b, p);
}

-- Rounds of `untrackConnection`: none of them moves the number away from 0.
release_rounds-Moves : (n : ℕ) (c : Carrier) → Moves 0 c (release_rounds n c)
unfolding release_rounds
release_rounds-Moves zero c = no-Moves 0 c
release_rounds-Moves (suc n) c =
    holds_if (Moves 0 c) (is_positive c.active) _ _
      (λ p.
        holds_if (Moves 0 c) (c.wg == 0) _ _ (λ h. release_request-Moves c p)
          (λ h.
            Moves-trans 0 0 c (release_request c) (release_rounds n (release_request c))
              (release_request-Moves c p) (release_rounds-Moves n (release_request c))))
      (λ p. no-Moves 0 c)

pub release-Moves : (c : Carrier) → Moves 0 c (release_all c)
unfolding release_all
release-Moves c = release_rounds-Moves (if is_positive c.active then c.active else 0) c

pub Fits-new : (j : ℕ) → j < 2 ^ 63 → Fits j new_flow_lock_carrier
unfolding new_flow_lock_carrier active_requests
Fits-new j b = record {
  safe = refl;
  word = omega arith;
  near = omega (arith, b);
  covered = omega arith;
}

-- A response that is not matched moves the number of active requests and leaves the wait group.
pub excess-unmatched :
    (c : Carrier)
    → 0 < active_requests c
    → active_requests c ≤ c.wg
    → excess (count_response false c) ≡ excess c + 1
unfolding count_response excess active_requests
excess-unmatched c a w = ground (arith, a, w)
