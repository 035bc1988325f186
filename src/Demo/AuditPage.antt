-- ===== src/Demo/AuditPage.antt =====
-- demo/pages.ts: the page of the audit trail.
use aimail.Base.{
  ℕ, zero, suc, ◌+◌, ◌*◌, Bool, true, not, ◌&&◌, ◌||◌, Option, none, some, List, [], ◌∷◌, String,
  string_eq, ◌===◌, Text, length, filter, take, leb, or_else,
}
use mathlib.Core.List.{reverse}
use aimail.Base.Maps.{get}
use aimail.Demo.Types.{
  Call, ActionGroup, sending, drafting, privacy, mailbox, settings, admin, other, AuditEvent,
}
use aimail.Demo.Todo.{day_ms}
use aimail.Demo.Trail.{ChainedEvent, head_hash}

unfoldable pub group_word : ActionGroup → String
group_word sending = "sending"
group_word drafting = "drafting"
group_word privacy = "privacy"
group_word mailbox = "mailbox"
group_word settings = "settings"
group_word admin = "admin"
group_word other = "other"

abbrev pub default_audit_rows : ℕ
default_audit_rows = 50

abbrev pub window_days : List (String × ℕ)
window_days = ("day", 1) ∷ ("week", 7) ∷ ("month", 30) ∷ []

-- `!asked || asked === value`.
unfoldable pub is_asked : Option String → String → Bool
is_asked none value = true
is_asked (some asked) value = asked === "" || asked === value

unfoldable pub is_in_window : Option ℕ → ℕ → ℕ → Bool
is_in_window none now at = true
is_in_window (some days) now at = leb now (at + days * day_ms)

-- `auditFilter`.
unfoldable pub passes_filter : List (String × String) → ℕ → AuditEvent → Bool
passes_filter query now event =
    is_asked (get "group" query) (group_word event.group)
    && is_asked (get "person" query) "demo-person"
    && (not (or_else (get "failures_only" query) "" === "true") || not event.success)
    && is_in_window (get (or_else (get "window" query) "all") window_days) now event.created_at

pub record AuditTrail : Type 0 where
  pub events : List ChainedEvent
  pub is_chain_intact : Bool
  pub total_records : ℕ
  pub verified_records : ℕ
  pub failed_records : ℕ
  pub head : Option Text

-- `Number(value) || DEFAULT_AUDIT_ROWS`.
unfoldable pub limit_of : Option ℕ → ℕ
limit_of none = default_audit_rows
limit_of (some zero) = default_audit_rows
limit_of (some (suc n)) = suc n

unfoldable pub asked_number : (String → Option ℕ) → Option String → Option ℕ
asked_number read none = none
asked_number read (some t) = read t

-- The rows of the chain that pass, the newest first.
unfoldable pub matching : Call → List ChainedEvent → List ChainedEvent
matching call chain = filter (λ row. passes_filter call.query call.now row.event) (reverse chain)

unfoldable pub trail_page : (String → Option ℕ) → Call → List ChainedEvent → AuditTrail
trail_page read call chain =
    let found = matching call chain in
    let shown = take (limit_of (asked_number read (get "limit" call.query))) found in
    record {
      events = shown;
      is_chain_intact = true;
      total_records = length found;
      verified_records = length shown;
      failed_records = length (filter (λ row. not row.event.success) found);
      head = head_hash chain;
    }
