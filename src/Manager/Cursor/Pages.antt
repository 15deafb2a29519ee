-- ===== src/Manager/Cursor/Pages.antt =====
-- ingest/manager.go: one page of paginate, from a cursor that stands after a part of the results.
use mathlib.Core.List.{append_assoc}
use amoxtli.Common.{
  ◌≡◌, refl, sym, ap, subst, ◌∙◌, ◌≤◌, ◌<◌, inl, inr, ◌⊎◌, true, false, ℕ, suc, ◌+◌, ◌-◌, String,
  List, [], ◌∷◌, ◌++◌, map, if◌then◌else◌, ◌==◌, leb, arith, Bool-cases, eq_iff,
}
use amoxtli.Common.Distinct.{Distinct}
use amoxtli.Common.Int.{ℤ, pos, plus_fits}
use amoxtli.Common.Keyed.{contains}
use amoxtli.Common.Lists.{All-take, length, take, drop, All, take_all, drop-append, length-append}
use amoxtli.Common.Result.{ok, ◌>>=◌}
use amoxtli.Manager.Cursor.{
  SearchCursor, Codec, encode_cursor, decode_cursor, after_anchor, page_start, last_of, next_cursor,
  page_from, paginate,
}
use amoxtli.Search.{SearchResult}

module _ {F E : Type 0} (codec : Codec F E) where
  abbrev pub sources : List (SearchResult F) → List String
  sources rs = map (λ r. r.source) rs

  -- A cursor that stands after a part of the results.
  abbrev pub Stands : List (SearchResult F) → String → Type 0
  Stands passed cursor =
      ((passed ≡ []) × (cursor ≡ ""))
      ⊎ ((front : List (SearchResult F)) × (r : SearchResult F) × (anchor : SearchCursor F)
          × (passed ≡ front ++ (r ∷ []))
          × ((cursor == "") ≡ false)
          × (codec.decode cursor ≡ ok anchor)
          × (anchor.source ≡ r.source))

  contains-middle :
      (front : List (SearchResult F)) (r : SearchResult F) (rest : List (SearchResult F))
      → contains (sources (front ++ (r ∷ rest))) r.source ≡ true
  contains-middle [] r rest = ground (arith, eq_iff r.source r.source)
  contains-middle (x ∷ front) r rest = ground (arith, contains-middle front r rest)

  after_anchor-found :
      (front : List (SearchResult F)) (r : SearchResult F) (rest : List (SearchResult F))
      → Distinct (sources (front ++ (r ∷ rest)))
      → after_anchor codec r.source (front ++ (r ∷ rest)) ≡ length (front ++ (r ∷ []))
  unfolding after_anchor
  after_anchor-found [] r rest d = ground (arith, eq_iff r.source r.source)
  after_anchor-found (x ∷ front) r rest d = elim (Bool-cases (x.source == r.source)) [
    | inl e ↦
        (let same : x.source ≡ r.source = ground (arith, e, eq_iff x.source r.source) in
          cc
            (d.0, ap (contains (sources (front ++ (r ∷ rest)))) same, contains-middle front r rest))
    | inr e ↦ rw e (ap suc (after_anchor-found front r rest d.1))
  ]

  page_start-Stands :
      (results passed todo : List (SearchResult F)) (cursor : String)
      → results ≡ passed ++ todo
      → Distinct (sources results)
      → Stands passed cursor
      → page_start codec cursor results ≡ ok (length passed)
  unfolding page_start decode_cursor
  page_start-Stands results passed todo cursor e d (inl (p, c)) = rw (c, p) refl
  page_start-Stands results passed todo cursor e d (inr (front, r, anchor, p, c, q, s)) =
      let split = e ∙ ap (λ l. l ++ todo) p ∙ append_assoc front (r ∷ []) todo in
      let found = after_anchor-found front r todo (subst (λ l. Distinct (sources l)) split d) in
      rw (c, page_start) (rw (q, decode_cursor) (ap ok (rw (s, p, split) found)))

  take-end :
      (a k : ℕ) (todo : List (SearchResult F))
      → take ((if leb (a + k) (a + length todo) then a + k else a + length todo) - a) todo
        ≡ take k todo
  take-end a k todo = elim (Bool-cases (leb (a + k) (a + length todo))) [
    | inl h ↦ rw h (ap (λ m. take m todo) (omega arith))
    | inr h ↦ rw h (
        ap (λ m. take m todo) (omega arith)
        ∙ take_all (length todo) todo (omega arith)
        ∙ sym (take_all k todo (ground (arith, h))))
  ]

  -- The results can be written into a cursor, whatever their place and the filter.
  abbrev pub Encodes : List (SearchResult F) → Type 0
  Encodes rs =
      All
        (λ r.
          (offset : ℤ) (fingerprint : String)
          → (s : String) × (codec.encode (record {
            source = r.source;
            score = r.score;
            offset = offset;
            filter = fingerprint;
          })
              ≡ ok s))
        rs

  pub last_of-Stands :
      (passed : List (SearchResult F)) (r : SearchResult F) (rs : List (SearchResult F))
      (offset : ℤ) (fingerprint : String)
      → Encodes (r ∷ rs)
      → (s : String) × (encode_cursor codec (last_of codec r rs) offset fingerprint ≡ ok s)
        × ((s == "") ≡ false)
        × Stands (passed ++ (r ∷ rs)) s
  unfolding encode_cursor
  last_of-Stands passed r [] offset fingerprint h =
      let (s, e) = h.0 offset fingerprint in
      let filled = codec.encode-ne-empty _ s e in
      (
        s,
        rw (e, encode_cursor) refl,
        filled,
        inr (passed, r, _, refl, filled, codec.decode-encode _ s e, refl),
      )
  last_of-Stands passed r (x ∷ xs) offset fingerprint h =
      let (s, e, filled, stands) =
        last_of-Stands (passed ++ (r ∷ [])) x xs offset fingerprint h.1 in
      (s, e, filled, subst (λ l. Stands l s) (append_assoc passed (r ∷ []) (x ∷ xs)) stands)

  module _ (results : List (SearchResult F)) (n : ℕ) (fingerprint : String)
      (d : Distinct (sources results)) (fits : length results + suc n < 9223372036854775808) where
    end_of : List (SearchResult F) → ℕ
    end_of passed =
        if leb (length passed + suc n) (length results)
        then length passed + suc n
        else length results

    page-eq-take :
        (passed rs : List (SearchResult F)) (r : SearchResult F)
        → results ≡ passed ++ (r ∷ rs)
        → take (end_of passed - length passed) (drop (length passed) results) ≡ r ∷ take n rs
    unfolding end_of
    page-eq-take passed rs r e =
        rw (e, drop-append passed (r ∷ rs), length-append passed (r ∷ rs))
          (take-end (length passed) (suc n) (r ∷ rs))

    end_of-last :
        (passed rs : List (SearchResult F)) (r : SearchResult F)
        → results ≡ passed ++ (r ∷ rs)
        → leb (length results) (end_of passed) ≡ leb (length rs) n
    unfolding end_of
    end_of-last passed rs r e = ground (arith, ap length e, length-append passed (r ∷ rs))

    paginate-Stands :
        (passed rs : List (SearchResult F)) (r : SearchResult F) (cursor : String)
        → results ≡ passed ++ (r ∷ rs)
        → Stands passed cursor
        → paginate codec results cursor (suc n) fingerprint ≡ (
            next_cursor codec (r ∷ take n rs) (end_of passed) (length results) fingerprint
            >>= λ next. ok (r ∷ take n rs, next))
    unfolding paginate page_from end_of
    paginate-Stands passed rs r cursor e stands =
        let len = ap length e ∙ length-append passed (r ∷ rs) in
        let inside : leb (length results) (length passed) ≡ false = ground (arith, len) in
        let sum = plus_fits (length passed) (suc n) (omega (arith, len, fits)) in
        rw (page_start-Stands results passed (r ∷ rs) cursor e d stands, inside, sum, page_from)
          (ap
            (λ page. next_cursor codec page (end_of passed) (length results) fingerprint >>= λ next.
              ok (page, next))
            (page-eq-take passed rs r e))

    pub paginate-done :
        (passed : List (SearchResult F)) (cursor : String)
        → results ≡ passed ++ []
        → Stands passed cursor
        → paginate codec results cursor (suc n) fingerprint ≡ ok ([], "")
    unfolding paginate
    paginate-done passed cursor e stands =
        let len = ap length e ∙ length-append passed [] in
        let outside : leb (length results) (length passed) ≡ true = ground (arith, len) in
        rw (page_start-Stands results passed [] cursor e d stands, outside) refl

    pub paginate-last :
        (passed rs : List (SearchResult F)) (r : SearchResult F) (cursor : String)
        → results ≡ passed ++ (r ∷ rs)
        → Stands passed cursor
        → length rs ≤ n
        → paginate codec results cursor (suc n) fingerprint ≡ ok (r ∷ rs, "")
    unfolding next_cursor
    paginate-last passed rs r cursor e stands l =
        let last : leb (length results) (end_of passed) ≡ true =
          ground (arith, end_of-last passed rs r e, l) in
        paginate-Stands passed rs r cursor e stands ∙ rw (last, take_all n rs l) refl

    pub paginate-more :
        (passed rs : List (SearchResult F)) (r : SearchResult F) (cursor : String)
        → results ≡ passed ++ (r ∷ rs)
        → Stands passed cursor
        → Encodes (r ∷ rs)
        → n < length rs
        → (next : String) × (paginate codec results cursor (suc n) fingerprint
            ≡ ok (r ∷ take n rs, next))
          × ((next == "") ≡ false)
          × Stands (passed ++ (r ∷ take n rs)) next
    unfolding next_cursor
    paginate-more passed rs r cursor e stands h l =
        let more : leb (length results) (end_of passed) ≡ false =
          ground (arith, end_of-last passed rs r e, l) in
        let (next, p, filled, after) =
          last_of-Stands passed r (take n rs) (pos (end_of passed - 1)) fingerprint
            (h.0, All-take _ n rs h.1) in
        (next, paginate-Stands passed rs r cursor e stands ∙ rw (more, p) refl, filled, after)
