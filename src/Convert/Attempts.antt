-- ===== src/Convert/Attempts.antt =====
-- convert/retry.go: the end of the attempts, and a conversion that a retry saves.
use amoxtli.Common.{
  ◌≡◌, ◌≢◌, refl, ◌≤◌, ◌<◌, ◌⊎◌, inl, inr, true, false, ℕ, zero, suc, ◌+◌, String, Option, some,
  arith, Bool-cases,
}
use amoxtli.Common.Int.{ℤ, pos, negsuc, at_least}
use amoxtli.Common.Result.{Result, ok, done, out_of_fuel}
use amoxtli.Convert.{
  Outcome, converted, unconverted, Converter, Outside, doubled_backoff, close_partial, Attempt,
  returned, gave_up, again, on_outcome, attempt, retry_loop, attempts, retry,
}

attempts_left : (z : ℤ) (retries : ℕ) → at_least retries z ≡ false → suc (suc retries) ≤ attempts z
attempts_left (pos n) retries h = ground (arith, h)
attempts_left (negsuc n) retries h = cc

some_attempt : (z : ℤ) → 0 < attempts z
some_attempt (pos n) = omega arith
some_attempt (negsuc n) = omega arith

module _ {W R E : Type 0} (outside : Outside W R E) (inner : Converter W R E) (filename : String)
    (max_retries : ℤ) where
  -- a pass that goes on has retries left
  on_outcome-again :
      (retries : ℕ) (backoff : ℤ) (out : Outcome R E × W) (w : W)
      → on_outcome outside inner filename max_retries retries backoff out ≡ again w
      → at_least retries max_retries ≡ false
  on_outcome-again retries backoff (converted reader, w') w e = cc
  on_outcome-again retries backoff (unconverted partial problem, w') w e =
      elim (Bool-cases (at_least retries max_retries)) [ inr b ↦ b | inl b ↦ cc (rw b at e) ]

  Attempt-cases :
      (a : Attempt W R E)
      → ((r : R) × (w : W) × (a ≡ returned r w))
        ⊎ (((e : E) × (w : W) × (a ≡ gave_up e w)) ⊎ ((w : W) × (a ≡ again w)))
  Attempt-cases (returned r w) = inl (r, w, refl)
  Attempt-cases (gave_up e w) = inr (inl (e, w, refl))
  Attempt-cases (again w) = inr (inr (w, refl))

  retry_loop_ends :
      (fuel retries : ℕ) (backoff : ℤ) (w : W)
      → 0 < fuel
      → attempts max_retries ≤ fuel + retries
      → retry_loop outside inner filename max_retries fuel retries backoff w ≢ out_of_fuel
  unfolding retry_loop attempt
  retry_loop_ends zero retries backoff w p h = absurd (omega (arith, p))
  retry_loop_ends (suc fuel) retries backoff w p h =
      elim (Attempt-cases (attempt outside inner filename max_retries retries backoff w)) [
        | inl (r, w', e) ↦ rw (e, retry_loop) (λ q. cc)
        | inr (inl (problem, w', e)) ↦ rw (e, retry_loop) (λ q. cc)
        | inr (inr (w', e)) ↦
            rw (e, retry_loop)
              (let left =
                  attempts_left max_retries retries (on_outcome-again retries backoff _ w' e) in
                retry_loop_ends fuel (suc retries) (doubled_backoff backoff) w'
                  (omega (arith, left, h)) (omega (arith, h)))
      ]

  -- Retry ends, after at most one attempt more than the retries that it may make.
  pub retry_ends :
      (base_delay : ℤ) (w : W) → retry outside inner filename max_retries base_delay w ≢ out_of_fuel
  unfolding retry
  retry_ends base_delay w =
      retry_loop_ends (attempts max_retries) 0 base_delay w (some_attempt max_retries) (omega arith)

  -- After a number of attempts that a rate limit refuses, and after each of which the input goes back
  -- to its start, an attempt succeeds.
  abbrev pub Recovers : ℕ → ℤ → W → R → W → Type 0
  Recovers zero backoff w reader end = inner.convert filename w ≡ (converted reader, end)
  Recovers (suc n) backoff w reader end =
      (partial : Option R) × (problem : E) × (w1 : W) × (w2 : W) × (rewind : W
        → Result E (Unit {0}) × W)
      × (inner.convert filename w ≡ (unconverted partial problem, w1))
      × (outside.is_rate_limit problem ≡ true)
      × (outside.rewind ≡ some rewind)
      × (rewind (outside.sleep backoff (close_partial outside partial w1)) ≡ (ok tt, w2))
      × Recovers n (doubled_backoff backoff) w2 reader end

  retry_loop-Recovers :
      (m n fuel retries : ℕ) (backoff : ℤ) (w end : W) (reader : R)
      → n < fuel
      → max_retries ≡ pos m
      → retries + n ≤ m
      → Recovers n backoff w reader end
      → retry_loop outside inner filename max_retries fuel retries backoff w ≡ done (reader, end)
  unfolding retry_loop attempt
  retry_loop-Recovers m n zero retries backoff w end reader p z b h = absurd (omega (arith, p))
  retry_loop-Recovers m zero (suc fuel) retries backoff w end reader p z b h =
      rw (h, retry_loop, attempt) refl
  retry_loop-Recovers m (suc n) (suc fuel) retries backoff w end reader p z b
        (partial, problem, w1, w2, rewind, c, l, s, r, h) =
      let few : at_least retries max_retries ≡ false = rw z (ground (arith, b)) in
      let next : attempt outside inner filename max_retries retries backoff w ≡ again w2 =
        rw (c, attempt) (rw few (rw l (rw s (rw r refl)))) in
      rw (next, retry_loop)
        (retry_loop-Recovers m n fuel (suc retries) (doubled_backoff backoff) w2 end reader
          (omega (arith, p)) z (omega (arith, b)) h)

  -- Where no more attempts than the retries allowed fail, each by a rate limit, and the input goes
  -- back to its start after each, Retry returns what the attempt after them returns.
  pub retry-Recovers :
      (m n : ℕ) (base_delay : ℤ) (w end : W) (reader : R)
      → max_retries ≡ pos m
      → n ≤ m
      → Recovers n base_delay w reader end
      → retry outside inner filename max_retries base_delay w ≡ done (reader, end)
  unfolding retry
  retry-Recovers m n base_delay w end reader z p h =
      let enough : n < attempts max_retries = rw z (omega (arith, p)) in
      retry_loop-Recovers m n (attempts max_retries) 0 base_delay w end reader enough z
        (omega (arith, p)) h
