-- ===== src/Email.antt =====
-- types/email.ts: the email as the dashboard has it. A field that the service may leave out, or
-- send as null, is an `Option` where the program tells the two cases apart from a value; a list that
-- may be left out is the empty list, as every use reads it. A time is the moment that its ISO text
-- names (QuietHours), and a confidence is in thousandths.
use aimail.Base.{ℕ, Bool, Option, List, Text, String}
use aimail.Details.{Detail}
use aimail.QuietHours.Clocks.{Offset}

pub data Priority : Type 0 where
  critical high medium low : Priority

pub data Tone : Type 0 where
  professional casual : Tone

pub data EmailCategory : Type 0 where
  client vendor internal security admin personal : EmailCategory

pub data AuthStatus : Type 0 where
  pass spoof_detected unverified sender_confirmed : AuthStatus

pub data MaskingStatus : Type 0 where
  complete pending abandoned : MaskingStatus

-- What one call of a model saw (`Schemas["EgressRecord"]`); `hidden` counts the details by kind.
pub record EgressRecord : Type 0 where
  pub at : ℕ
  pub caught : ℕ
  pub chars : ℕ
  pub hidden : List (String × ℕ)
  pub provider : String
  pub purpose : String

pub record Email : Type 0 where
  pub id : String
  pub thread_id : Option String
  pub sender : Text
  pub subject : Text
  pub timestamp : ℕ
  pub is_read : Bool
  pub is_automated : Bool
  pub is_answered : Bool
  pub is_drafting : Bool
  pub priority : Priority
  pub category : EmailCategory
  pub category_confidence : Option ℕ
  pub tone : Tone
  pub draft_reply : Text
  pub critic_confidence : Option ℕ
  pub review_reasons : List String
  pub action_items : List Text
  pub ai_summary : Text
  pub details : List Detail
  pub egress : List EgressRecord
  pub auth_status : Option AuthStatus
  pub masking : Option MaskingStatus
  pub sent_at : Option ℕ
  pub scheduled_for : Option ℕ
  pub snoozed_until : Option ℕ
  pub sender_utc_offset_minutes : Option Offset
