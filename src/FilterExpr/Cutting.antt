-- ===== src/FilterExpr/Cutting.antt =====
-- index/filterexpr/filterexpr.go: where a text is cut, by the characters that do not occur in it.
use Prim.Native.Char.{Char, code}
use amoxtli.Common.{
  ◌≡◌, refl, ap, inl, inr, Bool, true, false, ◌||◌, ℕ, String, none, some, ◌=?◌, arith, Bool-cases,
}
use amoxtli.FilterExpr.{after_prefix, cut_at_token, before_mark, add_front, add_char}

-- one text after another
abbrev pub joined : String → String → String
joined String.[] t = t
joined (String.◌∷◌ c s) t = String.◌∷◌ c (joined s t)

-- whether a text has a character
abbrev pub occurs : ℕ → String → Bool
occurs n String.[] = false
occurs n (String.◌∷◌ c s) = code c =? n || occurs n s

pub occurs-joined : (n : ℕ) (s t : String) → occurs n (joined s t) ≡ (occurs n s || occurs n t)
occurs-joined n String.[] t = refl
occurs-joined n (String.◌∷◌ c s) t = ground (arith, occurs-joined n s t)

after_prefix_absent :
    (n : ℕ) (token s : String)
    → occurs n token ≡ true
    → occurs n s ≡ false
    → after_prefix token s ≡ none
unfolding after_prefix
after_prefix_absent n String.[] s p q = cc
after_prefix_absent n (String.◌∷◌ t ts) String.[] p q = refl
after_prefix_absent n (String.◌∷◌ t ts) (String.◌∷◌ c s) p q =
    elim (Bool-cases (code t =? code c)) [
      | inr b ↦ rw b refl
      | inl b ↦ rw b (after_prefix_absent n ts s (ground (arith, b, p, q)) (ground (arith, q)))
    ]

-- A text is not cut at a token that has a character which the text has not.
pub cut_at_token_absent :
    (n : ℕ) (token s : String)
    → occurs n token ≡ true
    → occurs n s ≡ false
    → cut_at_token token s ≡ none
unfolding cut_at_token
cut_at_token_absent n token String.[] p q =
    rw (after_prefix_absent n token "" p q, cut_at_token) refl
cut_at_token_absent n token (String.◌∷◌ c s) p q =
    rw (after_prefix_absent n token (String.◌∷◌ c s) p q, cut_at_token)
      (ap (add_front c) (cut_at_token_absent n token s p (ground (arith, q))))

after_prefix-joined : (token s : String) → after_prefix token (joined token s) ≡ some s
unfolding after_prefix
after_prefix-joined String.[] s = refl
after_prefix-joined (String.◌∷◌ t ts) s = ground (arith, after_prefix-joined ts s)

-- A text is cut at the first token, where the text before it has not the token's first character.
pub cut_at_token-joined :
    (key value : String) (t : Char) (ts : String)
    → occurs (code t) key ≡ false
    → cut_at_token (String.◌∷◌ t ts) (joined key (joined (String.◌∷◌ t ts) value))
      ≡ some (key, value)
unfolding cut_at_token
cut_at_token-joined String.[] value t ts p =
    rw (after_prefix-joined (String.◌∷◌ t ts) value, cut_at_token) refl
cut_at_token-joined (String.◌∷◌ c s) value t ts p =
    let differs : (code t =? code c) ≡ false = ground (arith, p) in
    rw (differs, cut_at_token)
      (ap (add_front c) (cut_at_token-joined s value t ts (ground (arith, p))))

pub before_mark_absent : (s : String) → occurs 63 s ≡ false → before_mark s ≡ none
unfolding before_mark
before_mark_absent String.[] p = refl
before_mark_absent (String.◌∷◌ c String.[]) p = ground (arith, p)
before_mark_absent (String.◌∷◌ c (String.◌∷◌ d s)) p =
    ap (add_char c) (before_mark_absent (String.◌∷◌ d s) (ground (arith, p)))
