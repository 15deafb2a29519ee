-- ===== src/Manager/Cursor.antt =====
-- ingest/manager.go: the cursors of a paginated search, and paginate. encoding/json and base64 are the
-- parameter `Codec`; a float that JSON cannot write makes encoding fail.
pub mod Pages
pub mod Walk
use amoxtli.Common.{
  ◌≡◌, Bool, false, ℕ, zero, suc, ◌-◌, String, List, [], ◌∷◌, if◌then◌else◌, ◌==◌, leb,
}
use amoxtli.Common.Int.{ℤ, pos, negsuc, plus}
use amoxtli.Common.Lists.{length, take, drop}
use amoxtli.Common.Result.{Result, ok, err, ◌>>=◌}
use amoxtli.Search.{SearchResult}

pub record SearchCursor (F : Type 0) : Type 0 where
  pub source : String
  pub score : F
  pub offset : ℤ
  pub filter : String

-- The errors of the cursor, and the panic of a slice expression out of range.
pub data CursorError (E : Type 0) : Type 0 where
  invalid_cursor : E → CursorError E
  not_encoded : E → CursorError E
  filter_mismatch : CursorError E
  negative_offset : CursorError E
  slice_panic : CursorError E

-- json.Marshal with base64, and back: what was encoded decodes to itself, and is no empty text.
pub record Codec (F E : Type 0) : Type 0 where
  pub encode : SearchCursor F → Result E String
  pub decode : String → Result E (SearchCursor F)
  pub decode-encode : (c : SearchCursor F) (s : String) → encode c ≡ ok s → decode s ≡ ok c
  pub encode-ne-empty : (c : SearchCursor F) (s : String) → encode c ≡ ok s → (s == "") ≡ false

module _ {F E : Type 0} (codec : Codec F E) where
  unfoldable pub encode_cursor : SearchResult F → ℤ → String → Result (CursorError E) String
  encode_cursor r offset fingerprint =
      elim (codec.encode
        (record { source = r.source; score = r.score; offset = offset; filter = fingerprint })) [
          | ok s ↦ ok s
          | err e ↦ err (CursorError.not_encoded e)
        ]

  unfoldable pub decode_cursor : String → Result (CursorError E) (SearchCursor F)
  decode_cursor s = elim (codec.decode s) [
    | ok c ↦ ok c
    | err e ↦ err (CursorError.invalid_cursor e)
  ]

  -- the offset that a cursor resumes at, after the check of its filter
  abbrev pub resume_offset : ℤ → Result (CursorError E) ℤ
  resume_offset (pos n) = ok (plus (pos n) 1)
  resume_offset (negsuc n) = err CursorError.negative_offset

  unfoldable pub resume_cursor : String → String → Result (CursorError E) ℤ
  unfolding decode_cursor
  resume_cursor cursor fingerprint =
      if cursor == ""
      then ok (pos 0)
      else (decode_cursor cursor >>= λ anchor.
          if anchor.filter == fingerprint
          then resume_offset anchor.offset
          else err CursorError.filter_mismatch)

  -- the index after the first result of a source, or the number of results
  unfoldable pub after_anchor : String → List (SearchResult F) → ℕ
  after_anchor source [] = 0
  after_anchor source (r ∷ rs) =
      let rest = after_anchor source rs in if r.source == source then 1 else suc rest

  -- `start` of paginate
  unfoldable pub page_start : String → List (SearchResult F) → Result (CursorError E) ℕ
  unfolding decode_cursor after_anchor
  page_start cursor results =
      if cursor == ""
      then ok 0
      else (decode_cursor cursor >>= λ anchor. ok (after_anchor anchor.source results))

  -- the index of the last result of a page, for its cursor
  abbrev pub last_of : SearchResult F → List (SearchResult F) → SearchResult F
  last_of r [] = r
  last_of r (x ∷ xs) = last_of x xs

  -- the cursor of the next page, where there are results after `end`
  unfoldable pub next_cursor :
      List (SearchResult F) → ℕ → ℕ → String → Result (CursorError E) String
  unfolding encode_cursor
  next_cursor [] end total fingerprint = ok ""
  next_cursor (r ∷ rs) end total fingerprint =
      if leb total end then ok "" else encode_cursor (last_of r rs) (pos (end - 1)) fingerprint

  -- `results[start:end]` and the next cursor; `end` is negative where the sum has wrapped around
  unfoldable pub page_from :
      List (SearchResult F)
      → ℕ
      → ℤ
      → String
      → Result (CursorError E) (List (SearchResult F) × String)
  unfolding next_cursor
  page_from results start (negsuc n) fingerprint = err CursorError.slice_panic
  page_from results start (pos n) fingerprint =
      let end = if leb n (length results) then n else length results in
      let page = take (end - start) (drop start results) in
      next_cursor page end (length results) fingerprint >>= λ next. ok (page, next)

  unfoldable pub paginate :
      List (SearchResult F)
      → String
      → ℕ
      → String
      → Result (CursorError E) (List (SearchResult F) × String)
  unfolding page_start page_from
  paginate results cursor page_size fingerprint = page_start cursor results >>= λ start.
      if leb (length results) start
      then ok ([], "")
      else page_from results start (plus (pos start) page_size) fingerprint
