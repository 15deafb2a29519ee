-- ===== src/Cleanup/Scanned.antt =====
-- ingest/cleanup.go: the references that the scan of the documents finds.
use amoxtli.Common.{
  ◌≡◌, ◌≢◌, refl, subst, ap, sym, ◌∙◌, inl, inr, ◌⊎◌, ℕ, ◌+◌, ◌<◌, zero, suc, String, true, List,
  [], ◌∷◌, ◌++◌, arith,
}
use amoxtli.Common.Keyed.{contains, contains-append}
use amoxtli.Common.Result.{
  ok, ok-injective, bind_inv, Run, done, out_of_fuel, on_ok, on_ok-eq-done, on_ok-ne-out_of_fuel,
  done-injective,
}
use amoxtli.Cleanup.{DocumentStore, scan_page, scan_referenced_blobs, if_any}

nil_cons : (id : String) (ids : List String) → ◌≢◌ {A = List String} (id ∷ ids) []
nil_cons id ids h = cc

module _ {E : Type 0} (store : DocumentStore E) (hash : String) where
  -- A document of the list references the blob.
  abbrev pub OnPage : List String → Type 0
  OnPage [] = ⊥
  OnPage (id ∷ ids) =
      ((hashes : List String) × (store.content_hashes id ≡ ok hashes)
        × (contains hashes hash ≡ true))
      ⊎ OnPage ids

  -- A document references the blob, on the given page or on one after it that full pages lead to.
  pub data Referenced : ℕ → Type 0 where
    on_page :
        {page : ℕ} (ids : List String)
        → store.query_page page ≡ ok ids
        → OnPage ids
        → Referenced page
    later :
        {page : ℕ} (id : String) (ids : List String)
        → store.query_page page ≡ ok (id ∷ ids)
        → Referenced (suc page)
        → Referenced page

  scan_page_keeps :
      (ids referenced out : List String)
      → scan_page store ids referenced ≡ ok out
      → contains referenced hash ≡ true
      → contains out hash ≡ true
  unfolding scan_page
  scan_page_keeps [] referenced out e c = rw (sym (ok-injective e)) c
  scan_page_keeps (id ∷ ids) referenced out e c =
      let (hashes, h, rest) = bind_inv (store.content_hashes id) _ e in
      scan_page_keeps ids (hashes ++ referenced) out rest
        (ground (arith, c, contains-append hashes referenced hash))

  scan_page_finds :
      (ids referenced out : List String)
      → scan_page store ids referenced ≡ ok out
      → OnPage ids
      → contains out hash ≡ true
  unfolding scan_page
  scan_page_finds [] referenced out e c = absurd c
  scan_page_finds (id ∷ ids) referenced out e (inl (hashes, h, c)) =
      let (hashes', h', rest) = bind_inv (store.content_hashes id) _ e in
      let same : hashes ≡ hashes' = ok-injective (sym h ∙ h') in
      scan_page_keeps ids (hashes' ++ referenced) out rest (
        ground (
          arith,
          subst (λ l. contains l hash ≡ true) same c,
          contains-append hashes' referenced hash,
        ))
  scan_page_finds (id ∷ ids) referenced out e (inr c) =
      let (hashes', h', rest) = bind_inv (store.content_hashes id) _ e in
      scan_page_finds ids (hashes' ++ referenced) out rest c

  -- the rest of a round of the scan, where the next rounds keep what is known of their start
  round :
      (fuel page : ℕ) (referenced out ids : List String)
      → ((more : List String)
          → scan_page store ids referenced ≡ ok more
          → scan_referenced_blobs store fuel (suc page) more ≡ done out
          → contains out hash ≡ true)
      → (ids ≡ [] → contains referenced hash ≡ true)
      → if_any ids (done referenced) (
          on_ok
            (scan_page store ids referenced)
            (λ more. scan_referenced_blobs store fuel (suc page) more))
        ≡ done out
      → contains out hash ≡ true
  round fuel page referenced out [] next start rest = rw (sym (done-injective rest)) (start refl)
  round fuel page referenced out (id ∷ ids) next start rest =
      let (more, g, h) = on_ok-eq-done (scan_page store (id ∷ ids) referenced) _ rest in
      next more g h

  scan_keeps :
      (fuel page : ℕ) (referenced out : List String)
      → scan_referenced_blobs store fuel page referenced ≡ done out
      → contains referenced hash ≡ true
      → contains out hash ≡ true
  unfolding scan_referenced_blobs
  scan_keeps zero page referenced out e c = cc
  scan_keeps (suc fuel) page referenced out e c =
      let (ids, h, rest) = on_ok-eq-done (store.query_page page) _ e in
      round fuel page referenced out ids
        (λ more g n.
          scan_keeps fuel (suc page) more out n (scan_page_keeps ids referenced more g c))
        (λ p. c) rest

  pub scan_finds :
      (fuel page : ℕ) (referenced out : List String)
      → scan_referenced_blobs store fuel page referenced ≡ done out
      → Referenced page
      → contains out hash ≡ true
  unfolding scan_referenced_blobs
  scan_finds zero page referenced out e c = cc
  scan_finds (suc fuel) page referenced out e (on_page ids' h' c) =
      let (ids, h, rest) = on_ok-eq-done (store.query_page page) _ e in
      let there : OnPage ids = subst OnPage (ok-injective (sym h' ∙ h)) c in
      round fuel page referenced out ids
        (λ more g n.
          scan_keeps fuel (suc page) more out n (scan_page_finds ids referenced more g there))
        (λ p. absurd (subst OnPage p there)) rest
  scan_finds (suc fuel) page referenced out e (later id' ids' h' c) =
      let (ids, h, rest) = on_ok-eq-done (store.query_page page) _ e in
      round fuel page referenced out ids (λ more g n. scan_finds fuel (suc page) more out n c)
        (λ p. absurd (nil_cons id' ids' (ok-injective (sym h' ∙ h) ∙ p))) rest

module _ {E : Type 0} (store : DocumentStore E) where
  -- The scan ends where there is an empty page before its fuel is spent.
  pub scan_ends :
      (k fuel page stop : ℕ) (referenced : List String)
      → page + k ≡ stop
      → store.query_page stop ≡ ok []
      → k < fuel
      → scan_referenced_blobs store fuel page referenced ≢ out_of_fuel
  unfolding scan_referenced_blobs
  scan_ends k zero page stop referenced e empty lt = absurd (omega (arith, lt))
  scan_ends zero (suc fuel) page stop referenced e empty lt =
      let here : store.query_page page ≡ ok [] = ap store.query_page (omega (arith, e)) ∙ empty in
      rw here (λ p. cc)
  scan_ends (suc k) (suc fuel) page stop referenced e empty lt =
      on_ok-ne-out_of_fuel (store.query_page page) _ (λ ids. rest_ends ids (
        on_ok-ne-out_of_fuel (scan_page store ids referenced) _ (λ more.
          scan_ends k fuel (suc page) stop more (omega (arith, e)) empty (omega (arith, lt)))))
    where
      rest_ends :
          (ids : List String) {next : Run E (List String)}
          → next ≢ out_of_fuel
          → if_any ids (done referenced) next ≢ out_of_fuel
      rest_ends [] h = λ p. cc
      rest_ends (id ∷ ids) h = h
