-- ===== src/Examples/Convert.antt =====
-- A service that refuses its first call, behind Retry, and two converters behind Routed.
use amoxtli.Common.{
  ◌≡◌, refl, ℕ, suc, String, none, some, [], ◌∷◌, true, if◌then◌else◌, ◌=?◌, arith,
}
use amoxtli.Common.Int.{pos}
use amoxtli.Common.Result.{Result, ok, done}
use amoxtli.Convert.{converted, unconverted, Converter, Outside, retry, new_routed}
use amoxtli.Convert.Attempts.{Recovers, retry-Recovers}

-- The state counts the calls of the service.
abbrev service : Converter ℕ String String
service = record {
  convert = λ filename calls.
      (if calls =? 0 then unconverted none "rate limit" else converted "# Title", suc calls);
  supported_extensions = ".pdf" ∷ [];
}

abbrev stay : ℕ → Result String (Unit {0}) × ℕ
stay calls = (ok tt, calls)

abbrev outside : Outside ℕ String String
outside = record {
  close = λ reader calls. calls;
  is_rate_limit = λ problem. true;
  rewind = some stay;
  sleep = λ backoff calls. calls;
}

-- one refusal, and then the text
saved : Recovers outside service "a.pdf" (pos 3) 1 (pos 100) 0 "# Title" 2
saved = (none, "rate limit", 1, 1, stay, refl, refl, refl, refl, refl)

retry-Recovers_example : retry outside service "a.pdf" (pos 3) (pos 100) 0 ≡ done ("# Title", 2)
retry-Recovers_example =
    retry-Recovers outside service "a.pdf" (pos 3) 3 1 (pos 100) 0 2 "# Title" refl (omega arith)
      saved

abbrev by_dot : String → String
by_dot filename = ".pdf"

abbrev text_only : Converter ℕ String String
text_only = record {
  convert = λ filename calls. (converted "text", calls);
  supported_extensions = ".txt" ∷ [];
}

routes_to_second :
    (new_routed "not supported" by_dot (text_only ∷ service ∷ [])).convert "a.pdf" 1
    ≡ (converted "# Title", 2)
unfolding new_routed
routes_to_second = refl
