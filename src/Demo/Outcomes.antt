-- ===== src/Demo/Outcomes.antt =====
-- demo/state.ts, demo/request.ts: what a call about one email may leave behind.
use aimail.Base.{
  ℕ, Option, none, some, List, [], ◌∷◌, ◌++◌, String, ◌===◌, map, ◌≡◌, refl, sym, ap, ◌∙◌, ◌≢◌, ◌⊎◌,
  inl, inr, Bool-cases, eq_iff, arith,
}
use aimail.Email.{Email}
use aimail.Demo.Types.{Call, Failure, AuditFields, DemoState, Result, ok, err}
use aimail.Demo.Json.{param}
use aimail.Demo.State.{
  refused_not_found, email_by_id, assign, store_email, change_found, update_email, row, record_row,
  then_record,
}
use aimail.Demo.Emails.{answer_one, answer_done}

pub ids : List Email → List String
ids emails = map (λ email. email.id) emails

-- What an answered call about one email may leave behind: the same emails in the same order, every
-- other email as it was, at most one more row at the end of the trail, and nothing else changed.
pub record Allowed (id : String) (s u : DemoState) : Type 0 where
  pub same_ids : ids u.emails ≡ ids s.emails
  pub others : (j : String) → j ≢ id → email_by_id j u.emails ≡ email_by_id j s.emails
  pub trail :
      (u.audit ≡ s.audit)
      ⊎ ((action : String) × (fields : AuditFields) × (at : ℕ) × (u.audit
            ≡ s.audit ++ row action fields at s ∷ []))
  pub rest : record u { emails = s.emails; audit = s.audit } ≡ s

-- A call is refused with nothing changed, or answered.
pub data Outcome {A : Type 0} (id : String) (s : DemoState) : DemoState × Result A → Type 0 where
  refused : (e : Failure) → Outcome id s (s, err e)
  answered : (u : DemoState) (a : A) → Allowed id s u → Outcome id s (u, ok a)

pub Allowed-refl : (id : String) (s : DemoState) → Allowed id s s
Allowed-refl id s = record {
  same_ids = refl;
  others = λ j other. refl;
  trail = inl refl;
  rest = refl;
}

pub row-Allowed :
    (id : String) (s : DemoState) (action : String) (fields : AuditFields) (at : ℕ)
    → Allowed id s (record_row action fields at s)
unfolding record_row
row-Allowed id s action fields at = record {
  same_ids = refl;
  others = λ j other. refl;
  trail = inr (action, fields, at, refl);
  rest = refl;
}

assign-ids :
    (id : String) (changed : Email) (emails : List Email)
    → changed.id ≡ id
    → ids (assign id changed emails) ≡ ids emails
unfolding assign ids
assign-ids id changed [] same = refl
assign-ids id changed (email ∷ emails) same = elim (Bool-cases (email.id === id)) [
  | inl here ↦
      rw (assign, here) (ap (λ i. i ∷ ids emails) (same ∙ sym ((eq_iff email.id id).0 here)))
  | inr later ↦ rw (assign, later) (ap (λ r. email.id ∷ r) (assign-ids id changed emails same))
]

email_by_id-assign :
    (id j : String) (changed : Email) (emails : List Email)
    → changed.id ≡ id
    → j ≢ id
    → email_by_id j (assign id changed emails) ≡ email_by_id j emails
unfolding assign email_by_id
email_by_id-assign id j changed [] same other = refl
email_by_id-assign id j changed (email ∷ emails) same other = ground (
  arith,
  eq_iff email.id id,
  eq_iff email.id j,
  eq_iff changed.id j,
  email_by_id-assign id j changed emails same other,
)

pub email_by_id-assigned :
    (id : String) (changed email : Email) (emails : List Email)
    → changed.id ≡ id
    → email_by_id id emails ≡ some email
    → email_by_id id (assign id changed emails) ≡ some changed
unfolding assign email_by_id
email_by_id-assigned id changed email [] same found = cc
email_by_id-assigned id changed email (other ∷ emails) same found = ground (
  arith,
  eq_iff other.id id,
  eq_iff changed.id id,
  email_by_id-assigned id changed email emails same,
)

email_by_id-id :
    (id : String) (email : Email) (emails : List Email)
    → email_by_id id emails ≡ some email
    → email.id ≡ id
unfolding email_by_id
email_by_id-id id email [] found = cc
email_by_id-id id email (other ∷ emails) found =
    ground (arith, eq_iff other.id id, email_by_id-id id email emails)

-- What a change gives, if anything, is the same email.
unfoldable pub KeepsId : (Email → Result Email) → Type 0
KeepsId change = (email changed : Email) → change email ≡ ok changed → changed.id ≡ email.id

-- `updateEmail` is refused with nothing changed, or it stores what it answers with.
pub data Updated (id : String) (s : DemoState) : DemoState × Result Email → Type 0 where
  unfound : (e : Failure) → Updated id s (s, err e)
  stored :
      (original changed : Email)
      → email_by_id id s.emails ≡ some original
      → changed.id ≡ id
      → Updated id s (record s { emails = assign id changed s.emails }, ok changed)

stored-Allowed :
    (id : String) (s : DemoState) (changed : Email)
    → changed.id ≡ id
    → Allowed id s (record s { emails = assign id changed s.emails })
stored-Allowed id s changed same = record {
  same_ids = assign-ids id changed s.emails same;
  others = λ j other. email_by_id-assign id j changed s.emails same other;
  trail = inl refl;
  rest = refl;
}

stored-record-Allowed :
    (id : String) (s : DemoState) (changed : Email) (action : String) (fields : AuditFields)
    (at : ℕ)
    → changed.id ≡ id
    → Allowed id s (record_row action fields at (record s { emails = assign id changed s.emails }))
unfolding record_row row
stored-record-Allowed id s changed action fields at same = record {
  same_ids = assign-ids id changed s.emails same;
  others = λ j other. email_by_id-assign id j changed s.emails same other;
  trail = inr (action, fields, at, refl);
  rest = refl;
}

store_email-Updated :
    (id : String) (s : DemoState) (original : Email) (result : Result Email)
    → email_by_id id s.emails ≡ some original
    → ((changed : Email) → result ≡ ok changed → changed.id ≡ original.id)
    → Updated id s (store_email id result s)
unfolding store_email
store_email-Updated id s original (err e) found keeps = unfound e
store_email-Updated id s original (ok changed) found keeps =
    stored original changed found (keeps changed refl ∙ email_by_id-id id original s.emails found)

pub update_email-Updated :
    (call : Call) (change : Email → Result Email) (s : DemoState)
    → KeepsId change
    → Updated (param call) s (update_email call change s)
unfolding update_email change_found KeepsId
update_email-Updated call change s keeps = found (email_by_id (param call) s.emails) refl
  where
    found :
        (o : Option Email)
        → email_by_id (param call) s.emails ≡ o
        → Updated (param call) s (change_found (param call) change o s)
    found none e = unfound refused_not_found
    found (some original) e =
        store_email-Updated (param call) s original (change original) e (keeps original)

pub answer_one-Outcome :
    (id : String) (s : DemoState) (r : DemoState × Result Email)
    → Updated id s r
    → Outcome id s (answer_one r)
unfolding answer_one
answer_one-Outcome id s _ (unfound e) = refused e
answer_one-Outcome id s _ (stored original changed found same) =
    answered _ _ (stored-Allowed id s changed same)

pub answer_done-Outcome :
    (id : String) (s : DemoState) (r : DemoState × Result Email)
    → Updated id s r
    → Outcome id s (answer_done r)
unfolding answer_done
answer_done-Outcome id s _ (unfound e) = refused e
answer_done-Outcome id s _ (stored original changed found same) =
    answered _ _ (stored-Allowed id s changed same)

pub then_record-Outcome :
    (id : String) (s : DemoState) (action : String) (fields : Email → AuditFields) (at : ℕ)
    (r : DemoState × Result Email)
    → Updated id s r
    → Outcome id s (answer_one (then_record action fields at r))
unfolding answer_one then_record
then_record-Outcome id s action fields at _ (unfound e) = refused e
then_record-Outcome id s action fields at _ (stored original changed found same) =
    answered _ _ (stored-record-Allowed id s changed action (fields changed) at same)
