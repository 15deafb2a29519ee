-- ===== src/Evaluator/Prompt.antt =====
-- retrieval/evaluate.go: truncateSection and getUserPrompt, with its budget of words. A section is
-- its identifier and the outcome of reading its content.
use Prim.Native.String.{◌++◌ as cat}
use amoxtli.Common.{◌+◌, ◌-◌, true, false, ℕ, min, String, Option, none, some, List, [], ◌∷◌, leb}
use amoxtli.Common.Int.{ℤ, positive_or}
use amoxtli.Common.Lists.{length, take}
use amoxtli.Common.Result.{Result, ok, ◌>>=◌}
use amoxtli.Search.{SectionId, SearchResult}

-- strings.Fields, strings.Join(_, " ") and strings.ToLower(strings.TrimSpace(_))
pub record WordTools : Type 0 where
  pub fields : String → List String
  pub join : List String → String
  pub normal : String → String

pub record Section (E : Type 0) : Type 0 where
  pub id : SectionId
  pub content : Result E String

-- the words that truncateSection keeps
unfoldable pub first_words : WordTools → String → ℕ → ℕ → List String
first_words tools content max_section_words remaining =
    take (min max_section_words remaining) (tools.fields content)

unfoldable pub truncate_section : WordTools → String → ℕ → ℕ → String × ℕ
unfolding first_words
truncate_section tools content max_section_words remaining =
    let words = first_words tools content max_section_words remaining in
    (tools.join words, length words)

-- the strings.Builder and the counter of words
pub record Prompt : Type 0 where
  pub text : String
  pub total_words : ℕ

-- what is written for one section before its words
unfoldable pub heading : SectionId → String
heading id = cat "### Document " (cat id (cat "\n\n" (cat "**Identifier:** " (cat id "\n\n"))))

module _ {E : Type 0} (tools : WordTools) (max_total max_section : ℕ) where
  unfoldable pub write_section : Section E → Prompt → Result E Prompt
  unfolding heading truncate_section
  write_section section p = do
    content ← section.content
    let (text, consumed) = truncate_section tools content max_section (max_total - p.total_words)
    ok (record {
      text = cat p.text (cat (heading section.id) (cat text "\n\n"));
      total_words = p.total_words + consumed;
    })

  module _ (sections : SectionId → Option (Section E)) where
    -- the loop over the sections of one result; the budget ends it, not the loop around it
    unfoldable pub write_sections : List SectionId → Prompt → Result E Prompt
    unfolding write_section
    write_sections [] p = ok p
    write_sections (s ∷ rest) p = elim (sections s) [
      | none ↦ write_sections rest p
      | some section ↦ elim (leb max_total p.total_words) [
        | true ↦ ok p
        | false ↦ write_section section p >>= λ q. write_sections rest q
      ]
    ]

    unfoldable pub write_results : {F : Type 0} → List (SearchResult F) → Prompt → Result E Prompt
    unfolding write_sections
    write_results [] p = ok p
    write_results (r ∷ rs) p = write_sections r.sections p >>= λ q. write_results rs q

unfoldable pub prompt_header : String → String
prompt_header query = cat "## Query\n\n" (cat query "\n\n## Documents\n\n")

-- getUserPrompt, from the sections that the store returned
unfoldable pub user_prompt :
    {E F : Type 0}
    → WordTools
    → ℤ
    → ℕ
    → (SectionId → Option (Section E))
    → String
    → List (SearchResult F)
    → Result E String
unfolding prompt_header write_results
user_prompt tools max_total_words max_section_words sections query results = do
  p ←
      write_results tools (positive_or 8000 max_total_words) max_section_words sections results
        (record { text = prompt_header query; total_words = 0 })
  ok p.text
