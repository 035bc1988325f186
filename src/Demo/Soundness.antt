-- ===== src/Demo/Soundness.antt =====
-- demo/pages.ts: when the settings and the documents are sound.
use aimail.Base.{
  ℕ, suc, ◌≤◌, Option, none, some, List, [], ◌∷◌, Text, String, ◌===◌, length, All, ◌≡◌, refl, ap,
  inl, inr, Bool-cases,
}
use aimail.Demo.Types.{DemoState, Result}
use aimail.Demo.PageTypes.{DocumentDetail}
use aimail.Demo.Documents.{without_document, new_document, chunks_from, paragraphs}
use aimail.Demo.Settings.{holding_reply_error, writing_style}
use aimail.Demo.Pages.{PageAnswer, when_found}

-- Its count is that of its chunks.
abbrev pub IsCounted : DocumentDetail → Type 0
IsCounted document = document.chunk_count ≡ length document.chunks

-- Every document says how many chunks it has, the holding reply could be saved as it is, and there
-- are at most as many examples as the style may have.
pub record IsSound (s : DemoState) : Type 0 where
  pub documents_counted : All IsCounted s.documents
  pub reply_passes : holding_reply_error s.holding_reply ≡ none
  pub examples_fit : length (writing_style s).examples ≤ (writing_style s).max_examples

length-chunks_from : (n : ℕ) (ps : List Text) → length ps ≡ length (chunks_from n ps)
unfolding chunks_from
length-chunks_from n [] = refl
length-chunks_from n (p ∷ ps) = ap suc (length-chunks_from (suc n) ps)

pub new_document-IsCounted :
    (id : String) (title content : Text) → IsCounted (new_document id title content)
unfolding new_document
new_document-IsCounted id title content = length-chunks_from 0 (paragraphs content)

pub without_document-IsCounted :
    (id : String) (documents : List DocumentDetail)
    → All IsCounted documents
    → All IsCounted (without_document id documents)
unfolding without_document
without_document-IsCounted id [] all_there = tt
without_document-IsCounted id (document ∷ documents) (here, later) =
    elim (Bool-cases (document.document_id === id)) [
      | inl e ↦ rw e (without_document-IsCounted id documents later)
      | inr e ↦ rw e (here, without_document-IsCounted id documents later)
    ]

-- The state that a call leaves is sound.
unfoldable pub LeavesSound : DemoState × Result PageAnswer → Type 0
LeavesSound r = IsSound r.0

pub when_found-Sound {ℓ} :
    {A : Type ℓ} (s : DemoState) (o : Option A)
    (next : A → DemoState → DemoState × Result PageAnswer)
    → IsSound s
    → ((a : A) → LeavesSound (next a s))
    → LeavesSound (when_found o next s)
unfolding when_found LeavesSound
when_found-Sound s none next sound goes = sound
when_found-Sound s (some a) next sound goes = goes a
