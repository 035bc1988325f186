-- ===== src/ComposeDraft.antt =====
-- types/compose.ts: a new email that the user writes from a brief. Text is in placeholder form.
use aimail.Base.{ℕ, Option, List, Text, String}
use aimail.Details.{Detail}
use aimail.Email.{Tone, EgressRecord}

-- Where a new email is; with an unknown outcome it is locked until the user says whether it went.
pub data ComposeState : Type 0 where
  draft sending outcome_unknown sent : ComposeState

pub record ComposeDraft : Type 0 where
  pub id : String
  pub to : List Text
  pub cc : List Text
  pub subject : Text
  pub brief : Text
  pub body : Text
  pub tone : Tone
  pub state : ComposeState
  pub sources : List String
  pub review_reasons : List String
  pub critic_confidence : Option ℕ
  pub details : List Detail
  pub egress : List EgressRecord
  pub generated_at : Option ℕ
  pub sent_at : Option ℕ
  pub updated_at : ℕ
