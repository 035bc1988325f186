-- ===== src/Demo/SentDrafts.antt =====
-- demo/compose.ts: how a draft comes to be sent, and that it stays so.
use aimail.Base.{
  true, false, not, Option, none, some, List, [], ◌∷◌, ◌++◌, String, filter, ◌===◌, if◌then◌else◌,
  ◌≡◌, sym, ap, ◌∙◌, ◌≢◌, ◌⊎◌, inl, inr, Bool-cases, eq_iff, arith,
}
use aimail.ComposeDraft.{ComposeDraft, ComposeState}
use aimail.Demo.Types.{Call, DemoState}
use aimail.Demo.Json.{param}
use aimail.Demo.Compose.{ComposeData, refused_send}
use aimail.Demo.ComposeCalls.{ComposeRoute, remove, send, draft_by_id, assign_draft, handle_compose}
use aimail.Demo.ComposeLaws.{
  Change, kept, edited, sent_off, created, taken_out, draft_by_id-id, Leaves, handle_compose-Change,
}

draft_by_id-assign :
    (id j : String) (old new : ComposeDraft) (drafts : List ComposeDraft)
    → draft_by_id id drafts ≡ some old
    → new.id ≡ id
    → draft_by_id j (assign_draft id new drafts)
      ≡ (if id === j then some new else draft_by_id j drafts)
unfolding draft_by_id assign_draft
draft_by_id-assign id j old new [] found same = cc
draft_by_id-assign id j old new (draft ∷ drafts) found same = ground (
  arith,
  eq_iff draft.id id,
  eq_iff draft.id j,
  eq_iff new.id j,
  eq_iff id j,
  draft_by_id-assign id j old new drafts,
)

draft_by_id-append :
    (j : String) (old : ComposeDraft) (drafts more : List ComposeDraft)
    → draft_by_id j drafts ≡ some old
    → draft_by_id j (drafts ++ more) ≡ some old
unfolding draft_by_id
draft_by_id-append j old [] more found = cc
draft_by_id-append j old (draft ∷ drafts) more found =
    ground (arith, draft_by_id-append j old drafts more)

draft_by_id-filter :
    (id j : String) (drafts : List ComposeDraft)
    → draft_by_id j (filter (λ other. not (other.id === id)) drafts)
      ≡ (if id === j then none else draft_by_id j drafts)
unfolding draft_by_id
draft_by_id-filter id j [] = ground arith
draft_by_id-filter id j (draft ∷ drafts) =
    ground
      (arith, eq_iff draft.id id, eq_iff draft.id j, eq_iff id j, draft_by_id-filter id j drafts)

Change-sent :
    (id j : String) (route : ComposeRoute) (ds es : List ComposeDraft) (draft : ComposeDraft)
    → Change id route ds es
    → draft_by_id j ds ≡ some draft
    → draft.state ≡ ComposeState.sent
    → route ≢ remove
    → draft_by_id j es ≡ some draft
Change-sent id j route ds _ draft kept found sent stays = found
Change-sent id j route ds _ draft (edited old new was free same is) found sent stays =
    draft_by_id-assign id j old new ds was (same ∙ draft_by_id-id id old ds was)
    ∙ ground (arith, eq_iff id j)
Change-sent id j route ds _ draft (sent_off old new was free same r is passes) found sent stays =
    draft_by_id-assign id j old new ds was (same ∙ draft_by_id-id id old ds was)
    ∙ ground (arith, eq_iff id j)
Change-sent id j route ds _ draft (created new is) found sent stays =
    draft_by_id-append j draft ds _ found
Change-sent id j route ds _ draft (taken_out r) found sent stays = elim (stays r) [ ]

-- A new draft is no sent one, wherever it is put.
draft_by_id-created :
    (j : String) (new found : ComposeDraft) (drafts : List ComposeDraft)
    → new.state ≡ ComposeState.draft
    → found.state ≡ ComposeState.sent
    → draft_by_id j (drafts ++ new ∷ []) ≡ some found
    → draft_by_id j drafts ≡ some found
unfolding draft_by_id
draft_by_id-created j new found [] is sent e = elim (Bool-cases (new.id === j)) [
  | inl here ↦ cc
  | inr other ↦ cc
]
draft_by_id-created j new found (draft ∷ drafts) is sent e =
    ground (arith, draft_by_id-created j new found drafts)

some_injective : (a b : ComposeDraft) → some a ≡ some b → a ≡ b
some_injective a b e = cc

-- The row that is found twice is one draft.
same_state :
    (a b : ComposeDraft) (o : Option ComposeDraft) → o ≡ some a → o ≡ some b → a.state ≡ b.state
same_state a b o e f = ap (λ (d : ComposeDraft). d.state) (some_injective a b (sym e ∙ f))

draft_by_id-here :
    (id j : String) (old new after : ComposeDraft) (drafts : List ComposeDraft)
    → draft_by_id id drafts ≡ some old
    → new.id ≡ old.id
    → draft_by_id j (assign_draft id new drafts) ≡ some after
    → ((id ≡ j) × (new ≡ after)) ⊎ (draft_by_id j drafts ≡ some after)
draft_by_id-here id j old new after drafts was same found = elim (Bool-cases (id === j)) [
  | inl e ↦ inl (
    (eq_iff id j).0 e,
    some_injective new after (
        ap (λ b. if b then some new else draft_by_id j drafts) (sym e)
        ∙ sym (draft_by_id-assign id j old new drafts was own)
        ∙ found),
  )
  | inr e ↦ inr (
      ap (λ b. if b then some new else draft_by_id j drafts) (sym e)
      ∙ sym (draft_by_id-assign id j old new drafts was own)
      ∙ found)
]
  where
    own : new.id ≡ id
    own = same ∙ draft_by_id-id id old drafts was

-- How a draft that was not sent comes to be sent.
Change-sends :
    (id j : String) (route : ComposeRoute) (ds es : List ComposeDraft) (before after : ComposeDraft)
    → Change id route ds es
    → draft_by_id j ds ≡ some before
    → before.state ≢ ComposeState.sent
    → draft_by_id j es ≡ some after
    → after.state ≡ ComposeState.sent
    → (before.state ≡ ComposeState.draft) × (route ≡ send) × (id ≡ j) × (refused_send after ≡ none)
Change-sends id j route ds _ before after kept was unsent found sent =
    elim (unsent (same_state before after _ was found ∙ sent)) [ ]
Change-sends id j route ds _ before after (edited old new there free same is) was unsent found
      sent =
    elim (draft_by_id-here id j old new after ds there same found) [
      | inl (on, e) ↦ cc
      | inr e ↦ elim (unsent (same_state before after _ was e ∙ sent)) [ ]
    ]
Change-sends id j route ds _ before after (sent_off old new there free same r is passes) was unsent
      found sent =
    elim (draft_by_id-here id j old new after ds there same found) [
      | inl (on, e) ↦ (
        same_state before old _ was (ap (λ i. draft_by_id i ds) (sym on) ∙ there) ∙ free,
        r,
        on,
        ap refused_send (sym e) ∙ passes,
      )
      | inr e ↦ elim (unsent (same_state before after _ was e ∙ sent)) [ ]
    ]
Change-sends id j route ds _ before after (created new is) was unsent found sent =
    elim (unsent
      (same_state before after _ was (draft_by_id-created j new after ds is sent found) ∙ sent)) [ ]
Change-sends id j route ds _ before after (taken_out r) was unsent found sent =
    elim (Bool-cases (id === j)) [
      | inl e ↦ elim (none≢after (gone_none e)) [ ]
      | inr e ↦ elim (unsent (same_state before after _ was (gone e) ∙ sent)) [ ]
    ]
  where
    none≢after : none ≢ some after
    none≢after e = cc

    gone_none : (id === j) ≡ true → none ≡ some after
    gone_none e =
        ap (λ b. if b then none else draft_by_id j ds) (sym e)
        ∙ sym (draft_by_id-filter id j ds)
        ∙ found

    gone : (id === j) ≡ false → draft_by_id j ds ≡ some after
    gone e =
        ap (λ b. if b then none else draft_by_id j ds) (sym e)
        ∙ sym (draft_by_id-filter id j ds)
        ∙ found

-- A sent draft stays as it is, whatever is called, until a call removes a draft.
pub sent_stays :
    (given : ComposeData) (route : ComposeRoute) (call : Call) (s : DemoState) (j : String)
    (draft : ComposeDraft)
    → draft_by_id j s.compose_drafts ≡ some draft
    → draft.state ≡ ComposeState.sent
    → route ≢ remove
    → draft_by_id j (handle_compose given route call s).0.compose_drafts ≡ some draft
unfolding Leaves
sent_stays given route call s j draft found sent stays =
    Change-sent (param call) j route _ _ draft (handle_compose-Change given route call s) found sent
      stays

-- If a call leaves a draft sent that was not, then it was a draft, the call is a send of it, and
-- the text that it was sent with passes every check of a send.
pub sent_passes :
    (given : ComposeData) (route : ComposeRoute) (call : Call) (s : DemoState) (j : String)
    (before after : ComposeDraft)
    → draft_by_id j s.compose_drafts ≡ some before
    → before.state ≢ ComposeState.sent
    → draft_by_id j (handle_compose given route call s).0.compose_drafts ≡ some after
    → after.state ≡ ComposeState.sent
    → (before.state ≡ ComposeState.draft)
      × (route ≡ send)
      × (param call ≡ j)
      × (refused_send after ≡ none)
unfolding Leaves
sent_passes given route call s j before after was unsent found sent =
    Change-sends (param call) j route _ _ before after (handle_compose-Change given route call s)
      was unsent found sent
