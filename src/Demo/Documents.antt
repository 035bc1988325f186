-- ===== src/Demo/Documents.antt =====
-- demo/pages.ts: the documents of the Knowledge page.
use aimail.Base.{
  ℕ, zero, suc, ◌+◌, ◌-◌, not, Option, none, some, List, [], ◌∷◌, ◌++◌, Text, String, ◌===◌, length,
  filter, find, is_empty, is_space, trim, map, ◌==◌, if◌then◌else◌,
}
use aimail.Masking.{Pattern, span}
use aimail.Demo.PageTypes.{DocumentDetail, ChunkDetail}

-- How far a run of white space goes up to its last line feed.
unfoldable pub last_line_feed : Text → Option ℕ
last_line_feed [] = none
last_line_feed (c ∷ s) = elim (last_line_feed s) [
  | some n ↦ some (suc n)
  | none ↦ if c == 10 then some 1 else none
]

unfoldable pub one_more : Option ℕ → Option ℕ
one_more none = none
one_more (some n) = some (suc n)

-- `\n\s*\n`, the longest match.
unfoldable pub paragraph_break : Pattern
paragraph_break [] = none
paragraph_break (c ∷ s) = if c == 10 then one_more (last_line_feed (span is_space s).0) else none

-- `text.split(pattern)`: the part so far, and how many characters of a match are still to be passed.
unfoldable pub split_at : Pattern → Text → ℕ → Text → List Text
split_at m part skip [] = part ∷ []
split_at m part (suc skip) (c ∷ s) = split_at m part skip s
split_at m part zero (c ∷ s) = elim (m (c ∷ s)) [
  | none ↦ split_at m (part ++ c ∷ []) 0 s
  | some n ↦ part ∷ split_at m [] (n - 1) s
]

unfoldable pub paragraphs : Text → List Text
paragraphs content =
    filter (λ part. not (is_empty part)) (map trim (split_at paragraph_break [] 0 content))

-- `join("\n\n")`.
unfoldable pub joined_paragraphs : List Text → Text
joined_paragraphs [] = []
joined_paragraphs (p ∷ []) = p
joined_paragraphs (p ∷ q ∷ ps) = p ++ 10 ∷ 10 ∷ joined_paragraphs (q ∷ ps)

unfoldable pub chunks_from : ℕ → List Text → List ChunkDetail
chunks_from n [] = []
chunks_from n (p ∷ ps) = record { chunk_idx = n; content = p } ∷ chunks_from (suc n) ps

-- The document of a pasted text.
unfoldable pub new_document : String → Text → Text → DocumentDetail
new_document id title content = record {
  document_id = id;
  title = title;
  source = "pasted";
  doc_type = "policy";
  chunk_count = length (paragraphs content);
  content = joined_paragraphs (paragraphs content);
  chunks = chunks_from 0 (paragraphs content);
}

pub record PolicyDocument : Type 0 where
  pub document_id : String
  pub title : Text
  pub source : String
  pub doc_type : String
  pub chunk_count : ℕ

unfoldable pub document_summary : DocumentDetail → PolicyDocument
document_summary document = record {
  document_id = document.document_id;
  title = document.title;
  source = document.source;
  doc_type = document.doc_type;
  chunk_count = document.chunk_count;
}

unfoldable pub document_by_id : String → List DocumentDetail → Option DocumentDetail
document_by_id id documents = find (λ document. document.document_id === id) documents

unfoldable pub without_document : String → List DocumentDetail → List DocumentDetail
without_document id documents = filter (λ document. not (document.document_id === id)) documents

-- The `reduce` of `/system/info`.
unfoldable pub chunk_total : List DocumentDetail → ℕ
chunk_total [] = 0
chunk_total (document ∷ documents) = document.chunk_count + chunk_total documents
