-- ===== src/Examples/Manager/Cursors.antt =====
-- Cursors written as texts, and a walk over three results.
use Prim.Native.Char.{Char, code}
use amoxtli.Common.{
  ◌≡◌, ◌∙◌, refl, ap, subst, sym, inl, inr, Bool, Bool-cases, eq_iff, true, false, ℕ, zero, suc,
  ◌≤◌, String, none, List, [], ◌∷◌, if◌then◌else◌, ◌==◌, ◌=?◌, arith,
}
use amoxtli.Common.Int.{ℤ, pos, negsuc}
use amoxtli.Common.Lists.{All, length}
use amoxtli.Common.Result.{ok, done, ok-injective}
use amoxtli.Search.{SearchResult}
use amoxtli.Manager.Cursor.{SearchCursor, Codec}
use amoxtli.Manager.Cursor.Walk.{concat, walk, walk-concat}

-- A text that ends at a mark, and the text after it.
abbrev quote : String → String → String
quote String.[] rest = String.◌∷◌ "e" rest
quote (String.◌∷◌ c s) rest = String.◌∷◌ "c" (String.◌∷◌ c (quote s rest))

abbrev add_front : Char → String × String → String × String
add_front c (s, rest) = (String.◌∷◌ c s, rest)

abbrev unquote : String → String × String
unquote String.[] = ("", "")
unquote (String.◌∷◌ m String.[]) = ("", "")
unquote (String.◌∷◌ m (String.◌∷◌ c s)) =
    let more = unquote s in if code m =? 101 then ("", String.◌∷◌ c s) else add_front c more

unquote-quote : (s rest : String) → unquote (quote s rest) ≡ (s, rest)
unquote-quote String.[] String.[] = refl
unquote-quote String.[] (String.◌∷◌ c rest) = refl
unquote-quote (String.◌∷◌ c s) rest = ap (add_front c) (unquote-quote s rest)

-- a number in marks
abbrev count : ℕ → String → String
count zero rest = String.◌∷◌ "e" rest
count (suc n) rest = String.◌∷◌ "c" (count n rest)

abbrev one_more : ℕ × String → ℕ × String
one_more (n, rest) = (suc n, rest)

abbrev uncount : String → ℕ × String
uncount String.[] = (0, "")
uncount (String.◌∷◌ m s) = let more = uncount s in if code m =? 101 then (0, s) else one_more more

uncount-count : (n : ℕ) (rest : String) → uncount (count n rest) ≡ (n, rest)
uncount-count zero rest = refl
uncount-count (suc n) rest = ap one_more (uncount-count n rest)

abbrev write_int : ℤ → String → String
write_int (pos n) rest = String.◌∷◌ "p" (count n rest)
write_int (negsuc n) rest = String.◌∷◌ "n" (count n rest)

abbrev read_int : String → ℤ × String
read_int String.[] = (pos 0, "")
read_int (String.◌∷◌ m s) =
    (if code m =? 112 then pos (uncount s).0 else negsuc (uncount s).0, (uncount s).1)

read_int-write_int : (z : ℤ) (rest : String) → read_int (write_int z rest) ≡ (z, rest)
read_int-write_int (pos n) rest = ap (λ x. (pos x.0, x.1)) (uncount-count n rest)
read_int-write_int (negsuc n) rest = ap (λ x. (negsuc x.0, x.1)) (uncount-count n rest)

abbrev write : SearchCursor ℕ → String
write c = quote c.source (count c.score (write_int c.offset c.filter))

abbrev cursor_of : String → ℕ → ℤ × String → SearchCursor ℕ
cursor_of source score (offset, filter) = record {
  source = source;
  score = score;
  offset = offset;
  filter = filter;
}

abbrev scored_of : String → ℕ × String → SearchCursor ℕ
scored_of source (score, rest) = cursor_of source score (read_int rest)

abbrev read : String → SearchCursor ℕ
read s = scored_of (unquote s).0 (uncount (unquote s).1)

pub read-write : (c : SearchCursor ℕ) → read (write c) ≡ c
read-write c =
    ap (λ x. scored_of x.0 (uncount x.1))
      (unquote-quote c.source (count c.score (write_int c.offset c.filter)))
    ∙ ap (scored_of c.source) (uncount-count c.score (write_int c.offset c.filter))
    ∙ ap (cursor_of c.source c.score) (read_int-write_int c.offset c.filter)

abbrev filled : String → Bool
filled String.[] = false
filled (String.◌∷◌ c s) = true

quote_filled : (s rest : String) → filled (quote s rest) ≡ true
quote_filled String.[] rest = refl
quote_filled (String.◌∷◌ c s) rest = refl

filled-ne : (s : String) → filled s ≡ true → (s == "") ≡ false
filled-ne s h = elim (Bool-cases (s == "")) [
  | inr e ↦ e
  | inl e ↦ (let same : s ≡ "" = ground (arith, e, eq_iff s "") in cc (ap filled same, h))
]

pub written_filled : (c : SearchCursor ℕ) (s : String) → write c ≡ s → (s == "") ≡ false
written_filled c s e = filled-ne s (
    subst (λ x. filled x ≡ true) e
      (quote_filled c.source (count c.score (write_int c.offset c.filter))))

abbrev pub texts : Codec ℕ String
texts = record {
  encode = λ c. ok (write c);
  decode = λ s. ok (read s);
  decode-encode = λ c s e. ap ok (ap read (sym (ok-injective e)) ∙ read-write c);
  encode-ne-empty = λ c s e. written_filled c s (ok-injective e);
}

abbrev pub three : List (SearchResult ℕ)
three =
    record { source = "a"; sections = []; score = 1; section_scores = none }
    ∷ record { source = "b"; sections = []; score = 1; section_scores = none }
    ∷ record { source = "c"; sections = []; score = 1; section_scores = none }
    ∷ []

walk-concat_example :
    (pages : List (List (SearchResult ℕ))) × (walk texts 4 three 2 "f" "" ≡ done pages)
    × (concat pages ≡ three)
    × All (λ page. length page ≤ 2) pages
walk-concat_example = walk-concat texts three 1 "f" ((refl, (refl, (refl, tt)))) (omega arith) (
  λ offset fingerprint. (_, refl),
  (λ offset fingerprint. (_, refl), (λ offset fingerprint. (_, refl), tt)),
)
