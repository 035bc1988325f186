-- ===== src/Demo/PageTypes.antt =====
-- types/template.ts, types/knowledge.ts, types/settings.ts and types/profile.ts: what the pages keep.
use aimail.Base.{ℕ, Bool, Option, List, Text, String}

-- lib/preferences.ts.
pub data Language : Type 0 where
  english malay chinese : Language

pub record Template : Type 0 where
  pub id : String
  pub title : Text
  pub body : Text
  pub language : Language
  pub trigger_keywords : List Text
  pub last_used_at : Option ℕ

-- The id of a chunk is that of its document with its place.
pub record ChunkDetail : Type 0 where
  pub chunk_idx : ℕ
  pub content : Text

pub record DocumentDetail : Type 0 where
  pub document_id : String
  pub title : Text
  pub source : String
  pub doc_type : String
  pub chunk_count : ℕ
  pub content : Text
  pub chunks : List ChunkDetail

-- The settings that the demo reads; a text that is `undefined` is no entry.
pub record HoldingReplySettings : Type 0 where
  pub enabled : Bool
  pub templates : List (Language × Text)
  pub default_language : Language

pub record QuietHours : Type 0 where
  pub start : Text
  pub end : Text
  pub timezone : Text
  pub weekend_days : List ℕ

pub data ScanMode : Type 0 where
  local checked : ScanMode

pub record ScanReading : Type 0 where
  pub available : Bool
  pub mode : ScanMode

pub data ExampleSource : Type 0 where
  pasted sent : ExampleSource

pub record StyleExample : Type 0 where
  pub id : String
  pub source : ExampleSource
  pub created_at : ℕ
  pub text : Text

pub record StyleHabit : Type 0 where
  pub id : String
  pub value : Text
  pub evidence : ℕ
  pub out_of : ℕ

pub record WritingStyle : Type 0 where
  pub description : Text
  pub learning : Bool
  pub max_examples : ℕ
  pub examples : List StyleExample
  pub habits : List StyleHabit

-- What the pages are given: the clock's reading of a moment in the reader's time zone (the weekday
-- from 0 for Sunday; year, month from 0 and day; the start of the day), lower case, the prepared
-- texts and the settings of demo/data, the ids of new things by the moment, the digest and whether
-- the browser has it, and the reading of a number's text.
pub record PageData : Type 0 where
  pub weekday : ℕ → ℕ
  pub local_date : ℕ → ℕ × ℕ × ℕ
  pub start_of_day : ℕ → ℕ
  pub to_lower : Text → Text
  pub follow_ups : String → Option Text
  pub owner_name : Text
  pub company : QuietHours
  pub new_template : ℕ → String
  pub new_document : ℕ → String
  pub new_example : ℕ → String
  pub can_hash : Bool
  pub sha256 : Text → Text
  pub read_number : String → Option ℕ
