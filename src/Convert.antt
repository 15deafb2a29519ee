-- ===== src/Convert.antt =====
-- convert/retry.go and convert/routed.go: the converter that tries again, and the one that chooses by
-- extension. A converter acts on a state W, which holds the reader and the services behind it.
pub mod Attempts
pub mod Routes
use amoxtli.Common.{
  Bool, ℕ, zero, suc, ◌+◌, ◌*◌, String, Option, none, some, List, [], ◌∷◌, ◌++◌, if◌then◌else◌,
}
use Prim.Native.Nat.{◌%◌}
use amoxtli.Common.Int.{ℤ, pos, negsuc, at_least, to_word, of_word, word_size}
use amoxtli.Common.Keyed.{contains}
use amoxtli.Common.Result.{Result, ok, err, Run, done, failed, out_of_fuel}

-- What a conversion returns: a reader, or an error with the reader that may stand beside it.
pub data Outcome (R E : Type 0) : Type 0 where
  converted : R → Outcome R E
  unconverted : Option R → E → Outcome R E

-- Converter
pub record Converter (W R E : Type 0) : Type 0 where
  pub convert : String → W → Outcome R E × W
  pub supported_extensions : List String

-- What Retry takes from the packages around it: io.Closer, errors.Is for ErrRateLimit, io.Seeker
-- where the reader is one, and time.Sleep.
pub record Outside (W R E : Type 0) : Type 0 where
  pub close : R → W → W
  pub is_rate_limit : E → Bool
  pub rewind : Option (W → Result E (Unit {0}) × W)
  pub sleep : ℤ → W → W

-- `backoff *= 2`, on the 64 bits of a Duration
unfoldable pub doubled_backoff : ℤ → ℤ
unfolding of_word
doubled_backoff backoff = of_word ((to_word backoff * 2) % word_size)

module _ {W R E : Type 0} (outside : Outside W R E) where
  -- `if reader != nil`
  abbrev pub close_partial : Option R → W → W
  close_partial none w = w
  close_partial (some reader) w = outside.close reader w

-- How one pass of the loop of Retry ends.
pub data Attempt (W R E : Type 0) : Type 0 where
  returned : R → W → Attempt W R E
  gave_up : E → W → Attempt W R E
  again : W → Attempt W R E

-- the attempts that Retry makes at most
abbrev pub attempts : ℤ → ℕ
attempts (pos n) = suc n
attempts (negsuc n) = 1

module _ {W R E : Type 0} (outside : Outside W R E) (inner : Converter W R E) (filename : String)
    (max_retries : ℤ) where
  abbrev pub on_rewound : Result E (Unit {0}) × W → Attempt W R E
  on_rewound (ok _, w) = again w
  on_rewound (err e, w) = gave_up e w

  -- the wait and the way back to the start of the input, where it has one
  abbrev pub on_rate_limit : Option (W → Result E (Unit {0}) × W) → ℤ → E → W → Attempt W R E
  on_rate_limit none backoff e w = gave_up e w
  on_rate_limit (some rewind) backoff e w = on_rewound (rewind (outside.sleep backoff w))

  abbrev pub on_outcome : ℕ → ℤ → Outcome R E × W → Attempt W R E
  on_outcome retries backoff (converted reader, w) = returned reader w
  on_outcome retries backoff (unconverted partial e, w) =
      let w' = close_partial outside partial w in
      if at_least retries max_retries
      then gave_up e w'
      else (if outside.is_rate_limit e
          then on_rate_limit outside.rewind backoff e w'
          else gave_up e w')

  -- one pass of the loop
  unfoldable pub attempt : ℕ → ℤ → W → Attempt W R E
  attempt retries backoff w = on_outcome retries backoff (inner.convert filename w)

  -- the loop, with the number of retries and the time to wait
  unfoldable pub retry_loop : ℕ → ℕ → ℤ → W → Run (E × W) (R × W)
  unfolding attempt doubled_backoff
  retry_loop zero retries backoff w = out_of_fuel
  retry_loop (suc fuel) retries backoff w = elim (attempt retries backoff w) [
    | returned reader w' ↦ done (reader, w')
    | gave_up e w' ↦ failed (e, w')
    | again w' ↦ retry_loop fuel (suc retries) (doubled_backoff backoff) w'
  ]

  -- Convert of Retry
  unfoldable pub retry : ℤ → W → Run (E × W) (R × W)
  unfolding retry_loop
  retry base_delay w = retry_loop (attempts max_retries) 0 base_delay w

module _ {W R E : Type 0} (not_supported : E) (extension : String → String) where
  -- an error comes without a reader
  abbrev pub without_partial : Outcome R E × W → Outcome R E × W
  without_partial (converted reader, w) = (converted reader, w)
  without_partial (unconverted partial e, w) = (unconverted none e, w)

  -- Convert of Routed
  unfoldable pub route : List (Converter W R E) → String → W → Outcome R E × W
  route [] filename w = (unconverted none not_supported, w)
  route (c ∷ cs) filename w =
      let rest = route cs filename w in
      if contains c.supported_extensions (extension filename)
      then without_partial (c.convert filename w)
      else rest

  abbrev pub all_extensions : List (Converter W R E) → List String
  all_extensions [] = []
  all_extensions (c ∷ cs) = c.supported_extensions ++ all_extensions cs

  -- NewRouted
  unfoldable pub new_routed : List (Converter W R E) → Converter W R E
  unfolding route
  new_routed cs = record {
    convert = λ filename w. route cs filename w;
    supported_extensions = all_extensions cs;
  }
