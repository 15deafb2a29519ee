-- ===== src/Manager/Cursor/Walk.antt =====
-- ingest/manager.go: a caller that follows the cursors of paginate over one list of results.
use mathlib.Core.List.{append_assoc, append-nil}
use amoxtli.Common.{
  ◌≡◌, refl, sym, ap, subst, ◌∙◌, ◌≤◌, ◌<◌, inl, inr, false, ℕ, zero, suc, ◌+◌, String, List, [],
  ◌∷◌, ◌++◌, if◌then◌else◌, ◌==◌, leb, arith, Bool-cases,
}
use amoxtli.Common.Distinct.{Distinct}
use amoxtli.Common.Lists.{All-drop, length, take, drop, All, take-drop, length-drop, length-take_le}
use amoxtli.Common.Result.{ok, Run, done, failed, out_of_fuel, on_ok}
use amoxtli.Manager.Cursor.{CursorError, Codec, paginate}
use amoxtli.Search.{SearchResult}
use amoxtli.Manager.Cursor.Pages.{
  sources, Stands, Encodes, paginate-done, paginate-last, paginate-more,
}

-- the pages one after the other
abbrev pub concat {ℓ} : {A : Type ℓ} → List (List A) → List A
concat [] = []
concat (xs ∷ xss) = xs ++ concat xss

module _ {F E : Type 0} (codec : Codec F E) where
  -- A caller that asks for the next page until there is no cursor.
  unfoldable pub walk :
      ℕ
      → List (SearchResult F)
      → ℕ
      → String
      → String
      → Run (CursorError E) (List (List (SearchResult F)))
  walk zero results page_size fingerprint cursor = out_of_fuel
  walk (suc fuel) results page_size fingerprint cursor =
      on_ok (paginate codec results cursor page_size fingerprint) λ (page, next).
        let more = walk fuel results page_size fingerprint next in
        if next == "" then done (page ∷ []) else elim more [
          | done pages ↦ done (page ∷ pages)
          | failed e ↦ failed e
          | out_of_fuel ↦ out_of_fuel
        ]

  module _ (results : List (SearchResult F)) (n : ℕ) (fingerprint : String)
      (d : Distinct (sources codec results))
      (fits : length results + suc n < 9223372036854775808) where
    -- What a walk from a cursor comes to.
    abbrev Pages : List (SearchResult F) → ℕ → String → Type 0
    Pages todo fuel cursor =
        (pages : List (List (SearchResult F))) × (walk fuel results (suc n) fingerprint cursor
          ≡ done pages)
        × (concat pages ≡ todo)
        × All (λ page. length page ≤ suc n) pages

    walk-last :
        (fuel : ℕ) (page : List (SearchResult F)) (cursor : String)
        → paginate codec results cursor (suc n) fingerprint ≡ ok (page, "")
        → length page ≤ suc n
        → Pages page (suc fuel) cursor
    unfolding walk
    walk-last fuel page cursor e h = (page ∷ [], rw (e, walk) refl, append-nil page, (h, tt))

    walk-more :
        (fuel : ℕ) (page rest : List (SearchResult F)) (cursor next : String)
        → paginate codec results cursor (suc n) fingerprint ≡ ok (page, next)
        → (next == "") ≡ false
        → length page ≤ suc n
        → Pages rest fuel next
        → Pages (page ++ rest) (suc fuel) cursor
    unfolding walk
    walk-more fuel page rest cursor next e filled h (pages, w, c, all) =
        (page ∷ pages, rw (e, filled, w, walk) refl, ap (λ l. page ++ l) c, (h, all))

    walk-Pages :
        (fuel : ℕ) (passed todo : List (SearchResult F)) (cursor : String)
        → results ≡ passed ++ todo
        → Stands codec passed cursor
        → Encodes codec todo
        → length todo < fuel
        → Pages todo fuel cursor
    walk-Pages zero passed todo cursor e stands h l = absurd (omega (arith, l))
    walk-Pages (suc fuel) passed [] cursor e stands h l =
        walk-last fuel [] cursor
          (paginate-done codec results n fingerprint d fits passed cursor e stands) (omega arith)
    walk-Pages (suc fuel) passed (r ∷ rs) cursor e stands h l =
        elim (Bool-cases (leb (length rs) n)) [
          | inl last ↦
              walk-last fuel (r ∷ rs) cursor
                (paginate-last codec results n fingerprint d fits passed rs r cursor e stands
                  (ground (arith, last)))
                (ground (arith, last))
          | inr more ↦
              (let (next, p, filled, after) =
                  paginate-more codec results n fingerprint d fits passed rs r cursor e stands h
                    (ground (arith, more)) in
                let split =
                  e
                  ∙ ap (λ l. passed ++ (r ∷ l)) (sym (take-drop n rs))
                  ∙ sym (append_assoc passed (r ∷ take n rs) (drop n rs)) in
                let rest =
                  walk-Pages fuel (passed ++ (r ∷ take n rs)) (drop n rs) next split after
                    (All-drop _ n rs h.1) (omega (arith, l, length-drop n rs)) in
                subst (λ l. Pages l (suc fuel) cursor) (ap (r ∷◌) (take-drop n rs))
                  (walk-more fuel (r ∷ take n rs) (drop n rs) cursor next p filled
                    (omega (arith, length-take_le n rs)) rest))
        ]

    -- Where the results have distinct sources and can be written into cursors, following the cursors
    -- from the first page on ends, and returns every result once, in its order, in pages of at most
    -- the page size.
    pub walk-concat :
        Encodes codec results
        → (pages : List (List (SearchResult F))) × (walk
              (suc (length results))
              results
              (suc n)
              fingerprint
              ""
            ≡ done pages)
          × (concat pages ≡ results)
          × All (λ page. length page ≤ suc n) pages
    walk-concat h =
        walk-Pages (suc (length results)) [] results "" refl (inl (refl, refl)) h (omega arith)
