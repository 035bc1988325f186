-- ===== src/Demo/PageUndo.antt =====
-- demo/pages.ts: what is taken off To-do, and put back.
use aimail.Base.{
  ℕ, Bool, true, false, none, some, List, [], ◌∷◌, String, string_eq, ◌===◌, eq_iff, if◌then◌else◌,
  ◌≡◌, refl, ap, ◌∙◌, inl, inr, Bool-cases, arith,
}
use aimail.Base.Maps.{get, put, delete}
use aimail.Email.{Email}
use aimail.Demo.Types.{Call, AuditEvent, DemoState}
use aimail.Demo.Json.{param}
use aimail.Demo.State.{email_by_id, record_row}
use aimail.Demo.PageTypes.{PageData}
use aimail.Demo.Pages
use aimail.Demo.Pages.{PageRoute, when_found, email_of_sent, put_or_delete}
use aimail.Demo.PageRoutes.{handle_page}

delete-absent : (k : String) (m : List (String × ℕ)) → get k m ≡ none → delete k m ≡ m
unfolding get delete
delete-absent k [] h = refl
delete-absent k ((j, v) ∷ m) h = elim (Bool-cases (j === k)) [
  | inl e ↦ absurd (ground (arith, e, h))
  | inr e ↦ rw e (ap (λ r. (j, v) ∷ r) (delete-absent k m (rw e at h)))
]

delete-put :
    (k : String) (v : ℕ) (m : List (String × ℕ)) → get k m ≡ none → delete k (put k v m) ≡ m
unfolding get put delete
delete-put k v [] h = ground (arith, eq_iff k k)
delete-put k v ((j, w) ∷ m) h = elim (Bool-cases (j === k)) [
  | inl e ↦ absurd (ground (arith, e, h))
  | inr e ↦ rw (e, e) (ap (λ r. (j, w) ∷ r) (delete-put k v m (rw e at h)))
]

pub email_by_id-id :
    (id : String) (email : Email) (emails : List Email)
    → email_by_id id emails ≡ some email
    → email.id ≡ id
unfolding email_by_id
email_by_id-id id email [] found = cc
email_by_id-id id email (other ∷ emails) found =
    ground (arith, eq_iff other.id id, email_by_id-id id email emails)

-- One call after another.
abbrev pub after : PageData → PageRoute → Call → DemoState → DemoState
after given route call s = (handle_page given route call s).0

abbrev pub with_trail : List AuditEvent → DemoState → DemoState
with_trail rows s = record s { audit = rows }

abbrev with_dismissed : DemoState → List (String × ℕ) → DemoState
with_dismissed s entries = record s { dismissed = entries }

pub dismiss_found :
    (given : PageData) (call : Call) (s : DemoState) (email : Email) (b : Bool)
    → email_by_id (param call) s.emails ≡ some email
    → after given (if b then Pages.dismiss else Pages.undismiss) call s
      ≡ (Pages.mark_dismissed call b email s).0
unfolding handle_page when_found
dismiss_found given call s email true found =
    ap (λ o. (when_found o (Pages.mark_dismissed call true) s).0) found
dismiss_found given call s email false found =
    ap (λ o. (when_found o (Pages.mark_dismissed call false) s).0) found

-- An email that was not dismissed, dismissed and then put back on To-do, leaves everything but the
-- trail as it was.
pub put_back-restores :
    (given : PageData) (call later : Call) (s : DemoState) (email : Email)
    → param later ≡ param call
    → email_by_id (param call) s.emails ≡ some email
    → get (param call) s.dismissed ≡ none
    → with_trail s.audit (after given Pages.undismiss later (after given Pages.dismiss call s)) ≡ s
unfolding Pages.mark_dismissed record_row put_or_delete
put_back-restores given call later s email same found open_there =
    let u = (Pages.mark_dismissed call true email s).0 in
    let first : after given Pages.dismiss call s ≡ u =
      dismiss_found given call s email true found in
    let again : after given Pages.undismiss later u ≡ (Pages.mark_dismissed later false email u).0 =
      dismiss_found given later u email false (ap (λ id. email_by_id id s.emails) same ∙ found) in
    let gone : delete email.id (put email.id call.now s.dismissed) ≡ s.dismissed =
      delete-put email.id call.now s.dismissed (
        ap (λ id. get id s.dismissed) (email_by_id-id (param call) email s.emails found)
        ∙ open_there) in
    ap (λ w. with_trail s.audit (after given Pages.undismiss later w)) first
    ∙ ap (with_trail s.audit) again
    ∙ ap (with_dismissed s) gone
