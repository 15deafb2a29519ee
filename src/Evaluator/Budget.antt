-- ===== src/Evaluator/Budget.antt =====
-- retrieval/evaluate.go: the words of a prompt.
use Prim.Native.String.{◌++◌ as cat}
use text.Mathlib.TextLemmas.{append_assoc, append-nil, nil-append}
use amoxtli.Common.{
  ◌≡◌, sym, ap, subst, ◌∙◌, ◌+◌, ◌-◌, ◌≤◌, ℕ, min, String, Option, List, [], ◌∷◌, ◌++◌, leb, arith,
  Bool-cases, Option-cases, inl, inr,
}
use amoxtli.Common.Int.{ℤ, positive_or}
use amoxtli.Common.Lists.{length, All, All-append, length-take_le}
use amoxtli.Common.Result.{ok, bind_inv, ok-injective}
use amoxtli.Search.{SectionId, SearchResult}
use amoxtli.Evaluator.Prompt.{
  WordTools, Section, first_words, Prompt, heading, write_section, write_sections, write_results,
  prompt_header, user_prompt,
}

-- One document of a prompt: a section and the words that stand for it.
abbrev pub Document : Type 0
Document = SectionId × List String

abbrev pub word_count : List Document → ℕ
word_count [] = 0
word_count ((_, ws) ∷ ds) = length ws + word_count ds

abbrev pub render : WordTools → List Document → String
render tools [] = ""
render tools ((id, ws) ∷ ds) = cat (heading id) (cat (tools.join ws) (cat "\n\n" (render tools ds)))

render-append :
    (tools : WordTools) (ds es : List Document)
    → render tools (ds ++ es) ≡ cat (render tools ds) (render tools es)
render-append tools [] es = sym (nil-append (render tools es))
render-append tools ((id, ws) ∷ ds) es = simp (append_assoc, render-append tools ds es)

word_count-append : (ds es : List Document) → word_count (ds ++ es) ≡ word_count ds + word_count es
word_count-append [] es = omega arith
word_count-append ((id, ws) ∷ ds) es = omega (arith, word_count-append ds es)

module _ (tools : WordTools) (max_total max_section : ℕ) where
  -- What a stretch of the loops has written: whole documents, each within the limit of a section.
  pub record Wrote (p q : Prompt) : Type 0 where
    pub docs : List Document
    pub text : q.text ≡ cat p.text (render tools docs)
    pub counted : q.total_words ≡ p.total_words + word_count docs
    pub short : All (λ d. length d.1 ≤ max_section) docs
    pub bounded : p.total_words ≤ max_total → q.total_words ≤ max_total

  Wrote-refl : (p : Prompt) → Wrote p p
  Wrote-refl p = record {
    docs = [];
    text = sym (append-nil p.text);
    counted = omega arith;
    short = tt;
    bounded = λ h. h;
  }

  Wrote-trans : {p q r : Prompt} → Wrote p q → Wrote q r → Wrote p r
  Wrote-trans {p} {q} {r} a b = record {
    docs = a.docs ++ b.docs;
    text =
        b.text
        ∙ ap (λ t. cat t (render tools b.docs)) a.text
        ∙ append_assoc p.text (render tools a.docs) (render tools b.docs)
        ∙ ap (cat p.text) (sym (render-append tools a.docs b.docs));
    counted = omega (arith, a.counted, b.counted, word_count-append a.docs b.docs);
    short = All-append (λ d. length d.1 ≤ max_section) a.docs b.docs a.short b.short;
    bounded = λ h. b.bounded (a.bounded h);
  }

  -- One document within what is left of the budget.
  Wrote-appended :
      (p : Prompt) (id : SectionId) (ws : List String)
      → length ws ≤ min max_section (max_total - p.total_words)
      → Wrote p (record {
        text = cat p.text (cat (heading id) (cat (tools.join ws) "\n\n"));
        total_words = p.total_words + length ws;
      })
  Wrote-appended p id ws h = record {
    docs = (id, ws) ∷ [];
    text = simp append-nil;
    counted = omega arith;
    short = (omega arith, tt);
    bounded = λ k. omega arith;
  }

  module _ {E : Type 0} where
    Wrote-write_section :
        (section : Section E) (p q : Prompt)
        → write_section tools max_total max_section section p ≡ ok q
        → Wrote p q
    unfolding write_section first_words
    Wrote-write_section section p q h =
        let (content, e, k) = bind_inv section.content _ h in
        subst (Wrote p) (ok-injective k) (
          Wrote-appended p section.id
            (first_words tools content max_section (max_total - p.total_words))
            (omega (
              arith,
              length-take_le (min max_section (max_total - p.total_words)) (tools.fields content),
            )))

    module _ (sections : SectionId → Option (Section E)) where
      Wrote-write_sections :
          (ids : List SectionId) (p q : Prompt)
          → write_sections tools max_total max_section sections ids p ≡ ok q
          → Wrote p q
      unfolding write_sections
      Wrote-write_sections [] p q h = subst (Wrote p) (ok-injective h) (Wrote-refl p)
      Wrote-write_sections (s ∷ rest) p q h = elim (Option-cases (sections s)) [
        | inl e ↦ Wrote-write_sections rest p q (rw (e, write_sections) at h)
        | inr (section, e) ↦ elim (Bool-cases (leb max_total p.total_words)) [
          | inl full ↦
              subst (Wrote p) (ok-injective (rw (e, full, write_sections) at h)) (Wrote-refl p)
          | inr room ↦
              let (mid, one, more) =
                bind_inv (write_section tools max_total max_section section p) _
                  (rw (e, room, write_sections) at h) in
              Wrote-trans (Wrote-write_section section p mid one)
                (Wrote-write_sections rest mid q more)
        ]
      ]

      Wrote-write_results :
          {F : Type 0} (rs : List (SearchResult F)) (p q : Prompt)
          → write_results tools max_total max_section sections rs p ≡ ok q
          → Wrote p q
      unfolding write_results
      Wrote-write_results [] p q h = subst (Wrote p) (ok-injective h) (Wrote-refl p)
      Wrote-write_results (r ∷ rs) p q h =
          let (mid, one, more) =
            bind_inv (write_sections tools max_total max_section sections r.sections p) _ h in
          Wrote-trans (Wrote-write_sections r.sections p mid one)
            (Wrote-write_results rs mid q more)

-- A prompt that is built is its header followed by whole documents, each of at most
-- `max_section_words` words, and all of them together within the budget: `max_total_words`, or
-- 8000 where that is not positive.
pub user_prompt_budget :
    {E F : Type 0} (tools : WordTools) (max_total_words : ℤ) (max_section_words : ℕ)
    (sections : SectionId → Option (Section E)) (query : String) (results : List (SearchResult F))
    (text : String)
    → user_prompt tools max_total_words max_section_words sections query results ≡ ok text
    → (docs : List Document) × (text ≡ cat (prompt_header query) (render tools docs))
      × All (λ d. length d.1 ≤ max_section_words) docs
      × (word_count docs ≤ positive_or 8000 max_total_words)
unfolding user_prompt
user_prompt_budget tools max_total_words max_section_words sections query results text h =
    let (p, built, e) =
      bind_inv
        (write_results tools (positive_or 8000 max_total_words) max_section_words sections results
          (record { text = prompt_header query; total_words = 0 }))
        _ h in
    let w =
      Wrote-write_results tools (positive_or 8000 max_total_words) max_section_words sections
        results _ p built in
    (
      w.docs,
      sym (ok-injective e) ∙ w.text,
      w.short,
      omega (arith, w.counted, w.bounded (omega arith)),
    )
