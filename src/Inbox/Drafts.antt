-- ===== src/Inbox/Drafts.antt =====
-- lib/drafts.ts, lib/draftAvailability.ts: a draft that is listed is one that may be shown.
use aimail.Base.{Bool, true, false, Option, none, some, is_some, ◌≡◌, refl, ◌⊎◌, inl, inr, arith}
use aimail.Email.{Email, AuthStatus, pass, spoof_detected, unverified, sender_confirmed}
use aimail.Inbox.{
  ready, ready_unverified, availability, draft_availability, is_quarantined, is_spoofed,
  is_pending_draft,
}

availability-shown :
    (hidden : Bool) (status : Option AuthStatus)
    → hidden ≡ false
    → is_spoofed status ≡ false
    → (availability hidden status ≡ ready) ⊎ (availability hidden status ≡ ready_unverified)
unfolding availability is_spoofed
availability-shown true status h k = cc
availability-shown false none h k = inr refl
availability-shown false (some pass) h k = inl refl
availability-shown false (some spoof_detected) h k = cc
availability-shown false (some unverified) h k = inr refl
availability-shown false (some sender_confirmed) h k = inl refl

-- A draft that is listed as waiting is on an email that is not quarantined and whose sender is not
-- known to be spoofed, so that it may be shown; it is neither sent nor scheduled.
is_pending_draft-shown :
    (email : Email)
    → is_pending_draft email ≡ true
    → ((draft_availability email ≡ ready) ⊎ (draft_availability email ≡ ready_unverified))
      × (is_some email.sent_at ≡ false)
      × (is_some email.scheduled_for ≡ false)
unfolding is_pending_draft draft_availability
is_pending_draft-shown email h = (
  availability-shown (is_quarantined email) email.auth_status (ground (arith, h))
      (ground (arith, h)),
  ground (arith, h),
  ground (arith, h),
)
