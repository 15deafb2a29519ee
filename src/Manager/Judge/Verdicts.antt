-- ===== src/Manager/Judge/Verdicts.antt =====
-- ingest/manager.go: the verdicts that metadataFilter keeps between the rounds of one search.
use amoxtli.Common.{
  ◌≡◌, refl, sym, ap, subst, ◌∙◌, inl, inr, Bool, true, false, ◌||◌, String, some, List, [], ◌∷◌,
  if◌then◌else◌, ◌==◌, is_some, arith, Bool-cases, Option-cases, eq_iff,
}
use amoxtli.Common.Keyed.{Keyed, lookup, insert, lookup-insert, contains}
use amoxtli.Common.Lists.{keep}
use amoxtli.Common.Result.{Result, ok, bind_inv, ok-injective}
use amoxtli.Filter.Match.{Filter, matches}
use amoxtli.Filter.Norm.{Host, Metadata}
use amoxtli.Manager.{Manager, source_key}
use amoxtli.Manager.Judge.{verdict, mark, judge, keys_of, ask, apply_filter}
use amoxtli.Search.{SearchResult}

lookup-mark :
    (keys : List String) (v : Keyed Bool) (k : String)
    → lookup k (mark keys v).1 ≡ (if contains (mark keys v).0 k then some false else lookup k v)
unfolding mark
lookup-mark [] v k = refl
lookup-mark (key ∷ keys) v k = elim (Option-cases (lookup key v)) [
  | inr (b, e) ↦ rw (e, mark) (lookup-mark keys v k)
  | inl e ↦
      rw (e, mark)
        (ground (
          arith,
          lookup-mark keys (insert key false v) k,
          lookup-insert key k false v,
          eq_iff key k,
        ))
]

mark-covers :
    (keys : List String) (v : Keyed Bool) (k : String)
    → contains keys k ≡ true
    → (contains (mark keys v).0 k || is_some (lookup k v)) ≡ true
unfolding mark
mark-covers [] v k h = cc
mark-covers (key ∷ keys) v k h = elim (Option-cases (lookup key v)) [
  | inr (b, e) ↦ rw (e, mark) (ground (arith, h, e, mark-covers keys v k, eq_iff key k))
  | inl e ↦
      rw (e, mark)
        (ground (
          arith,
          h,
          mark-covers keys (insert key false v) k,
          lookup-insert key k false v,
          eq_iff key k,
        ))
]

module _ {h : Host} {E : Type 0} (m : Manager h E) (filter : Filter h) where
  lookup-judge :
      (metadata : String → Metadata h) (keys : List String) (v : Keyed Bool) (k : String)
      → lookup k (judge m filter metadata keys v)
        ≡ (if contains keys k then some (matches h filter (metadata k)) else lookup k v)
  unfolding judge
  lookup-judge metadata [] v k = refl
  lookup-judge metadata (key ∷ keys) v k = elim (Bool-cases (key == k)) [
    | inl e ↦
        (let same : key ≡ k = ground (arith, e, eq_iff key k) in
          ground (
            arith,
            e,
            lookup-judge metadata keys (insert key (matches h filter (metadata key)) v) k,
            lookup-insert key k (matches h filter (metadata key)) v,
            ap (λ x. matches h filter (metadata x)) same,
          ))
    | inr e ↦ ground (
      arith,
      e,
      lookup-judge metadata keys (insert key (matches h filter (metadata key)) v) k,
      lookup-insert key k (matches h filter (metadata key)) v,
    )
  ]

  keep-same :
      (f g : String → Bool) (rs : List (SearchResult h.floats.Float))
      → ((k : String) → contains (keys_of m filter rs) k ≡ true → f k ≡ g k)
      → keep (λ r. f (source_key m r.source)) rs ≡ keep (λ r. g (source_key m r.source)) rs
  keep-same f g [] same = refl
  keep-same f g (r ∷ rs) same =
      let key = source_key m r.source in
      ground (
        arith,
        same key (ground (arith, eq_iff key key)),
        keep-same f g rs (λ k p. same k (ground (arith, p))),
      )

  module _ (provider : List String → Result E (String → Metadata h))
      (truth : String → Metadata h) where
    -- The store answers with the metadata of each document that it is asked for.
    abbrev pub Consistent : Type 0
    Consistent =
        (keys : List String) (metadata : String → Metadata h)
        → provider keys ≡ ok metadata
        → (k : String) → contains keys k ≡ true
        → metadata k ≡ truth k

    -- The verdicts that are kept are those of the filter.
    abbrev pub Judged : Keyed Bool → Type 0
    Judged verdicts =
        (k : String) (b : Bool) → lookup k verdicts ≡ some b → b ≡ matches h filter (truth k)

    judge-Judged :
        (keys : List String) (v : Keyed Bool) (metadata : String → Metadata h)
        → ((k : String) → contains (mark keys v).0 k ≡ true → metadata k ≡ truth k)
        → Judged v
        → Judged (judge m filter metadata (mark keys v).0 (mark keys v).1)
    judge-Judged keys v metadata c j k b e = elim (Bool-cases (contains (mark keys v).0 k)) [
      | inl p ↦ ground (
        arith,
        p,
        e,
        lookup-judge metadata (mark keys v).0 (mark keys v).1 k,
        ap (matches h filter) (c k p),
      )
      | inr p ↦ j k b (
          ground (
            arith,
            p,
            e,
            lookup-judge metadata (mark keys v).0 (mark keys v).1 k,
            lookup-mark keys v k,
          ))
    ]

    -- every key of the results has a verdict after the two loops
    judge-covers :
        (keys : List String) (v : Keyed Bool) (metadata : String → Metadata h) (k : String)
        → contains keys k ≡ true
        → is_some (lookup k (judge m filter metadata (mark keys v).0 (mark keys v).1)) ≡ true
    judge-covers keys v metadata k p = ground (
      arith,
      mark-covers keys v k p,
      lookup-judge metadata (mark keys v).0 (mark keys v).1 k,
      lookup-mark keys v k,
    )

    verdict-Judged :
        (v : Keyed Bool) (k : String)
        → Judged v
        → is_some (lookup k v) ≡ true
        → verdict v k ≡ matches h filter (truth k)
    verdict-Judged v k j s = elim (Option-cases (lookup k v)) [
      | inl e ↦ cc (e, s)
      | inr (b, e) ↦ rw (e, verdict) (j k b e)
    ]

    keep-Judged :
        (results : List (SearchResult h.floats.Float)) (v : Keyed Bool)
        → Judged v
        → ((k : String)
            → contains (keys_of m filter results) k ≡ true
            → is_some (lookup k v) ≡ true)
        → keep (λ r. verdict v (source_key m r.source)) results
          ≡ keep (λ r. matches h filter (truth (source_key m r.source))) results
    keep-Judged results v j covers =
        keep-same (verdict v) (λ k. matches h filter (truth k)) results
          (λ k p. verdict-Judged v k j (covers k p))

    ask-judge :
        (keys : List String) (marked v' : Keyed Bool)
        → Consistent
        → ask m filter provider keys marked ≡ ok v'
        → (metadata : String → Metadata h) × ((k : String)
            → contains keys k ≡ true
            → metadata k ≡ truth k)
          × (v' ≡ judge m filter metadata keys marked)
    unfolding ask judge
    ask-judge [] marked v' c e = (truth, λ k p. refl, sym (ok-injective e))
    ask-judge (key ∷ keys) marked v' c e =
        let (metadata, p, e') = bind_inv (provider (key ∷ keys)) _ e in
        (metadata, c (key ∷ keys) metadata p, sym (ok-injective e'))

    -- A call of apply that succeeds keeps the results whose documents match the filter, in their
    -- order, and the verdicts that it leaves are again those of the filter.
    pub apply_filter-ok :
        (results kept : List (SearchResult h.floats.Float)) (v v' : Keyed Bool)
        → Consistent
        → Judged v
        → apply_filter m filter provider results v ≡ ok (kept, v')
        → (kept ≡ keep (λ r. matches h filter (truth (source_key m r.source))) results) × Judged v'
    unfolding apply_filter
    apply_filter-ok results kept v v' c j e =
        let keys = keys_of m filter results in
        let (w, p, e') = bind_inv (ask m filter provider (mark keys v).0 (mark keys v).1) _ e in
        let (metadata, known, q) = ask-judge (mark keys v).0 (mark keys v).1 w c p in
        let judged = subst Judged (sym q) (judge-Judged keys v metadata known j) in
        let covers = λ (k : String) (s : contains keys k ≡ true).
          subst (λ x. is_some (lookup k x) ≡ true) (sym q) (judge-covers keys v metadata k s) in
        (
          ap (λ x. x.0) (sym (ok-injective e')) ∙ keep-Judged results w judged covers,
          subst Judged (ap (λ x. x.1) (ok-injective e')) judged,
        )
