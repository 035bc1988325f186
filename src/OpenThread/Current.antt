-- ===== src/OpenThread/Current.antt =====
-- extension/useOpenThread.ts: whose thread is on screen, when the runs of `ask` do not overlap.
use aimail.Base.{
  ℕ, zero, suc, Bool, true, false, ◌&&◌, Option, none, some, List, [], ◌∷◌, ◌++◌, append-nil, ◌≡◌,
  refl, sym, ap, subst, arith, if_rule, or_else, Text, if◌then◌else◌,
}
use aimail.OpenThread.{
  TabState, gmail, not_gmail, needs_reload, Tab, Message, Ask, querying, messaging, done, Panel,
  PanelEvent, activated, updated, queried, replied, unreached, received, first_panel, start_ask,
  ask_at, set_ask, show, on_query, id_of, is_gmail_tab, query_done, reply_done, reply_failed,
  same_tab, on_message, thread_report, panel_step, run_panel,
}

abbrev pub pending_of : Ask → List Ask
pending_of done = []
pending_of a = a ∷ []

-- The runs that have not ended.
unfoldable pub pending : List Ask → List Ask
pending [] = []
pending (a ∷ asks) = pending_of a ++ pending asks

abbrev pub shows_gmail : TabState → Bool
shows_gmail gmail = true
shows_gmail _ = false

-- With no run under way the thread on screen is the active tab's word; a run that waits for a tab's
-- answer waits for the active one; and there is one run at most.
unfoldable pub Fits : List Ask → TabState → Option ℕ → Option ℕ → Type 0
Fits [] tab said_by active = shows_gmail tab ≡ true → said_by ≡ active
Fits (querying ∷ []) tab said_by active = Unit
Fits (messaging id ∷ []) tab said_by active = active ≡ some id
Fits _ tab said_by active = false ≡ true

unfoldable pub IsCurrent : Panel → Type 0
IsCurrent p = Fits (pending p.asks) p.shown.tab p.said_by p.active

-- A run starts only when none is under way.
abbrev has_none : List Ask → Bool
has_none [] = true
has_none (a ∷ asks) = false

abbrev pub is_in_turn : PanelEvent → Panel → Bool
is_in_turn activated p = has_none (pending p.asks)
is_in_turn (updated id is_news) p =
    if same_tab (some id) p.active && is_news then has_none (pending p.asks) else true
is_in_turn _ p = true

unfoldable pub IsInTurn : List PanelEvent → Panel → Type 0
IsInTurn [] p = Unit
IsInTurn (e ∷ events) p = (is_in_turn e p ≡ true) × IsInTurn events (panel_step e p)

pending-append : (asks : List Ask) → pending (asks ++ querying ∷ []) ≡ pending asks ++ querying ∷ []
unfolding pending
pending-append [] = refl
pending-append (done ∷ asks) = pending-append asks
pending-append (querying ∷ asks) = ap (λ l. querying ∷ l) (pending-append asks)
pending-append (messaging id ∷ asks) = ap (λ l. messaging id ∷ l) (pending-append asks)

-- A run that is under way at a place, where it is the only one, and what is put in its place.
record IsOnly (n : ℕ) (a : Ask) (asks : List Ask) : Type 0 where
  only : pending asks ≡ a ∷ []
  put : (b : Ask) → pending (set_ask n b asks) ≡ pending_of b

-- There is one at least where one is found.
found_pending :
    (n : ℕ) (a : Ask) (asks : List Ask)
    → ask_at n asks ≡ a
    → has_none (pending_of a) ≡ false
    → has_none (pending asks) ≡ false
unfolding ask_at pending
found_pending n done asks e h = absurd (ground arith)
found_pending n a [] e h = absurd (ground arith)
found_pending zero querying (b ∷ asks) e h = rw e refl
found_pending zero (messaging id) (b ∷ asks) e h = rw e refl
found_pending (suc n) a (done ∷ asks) e h = found_pending n a asks e h
found_pending (suc n) a (querying ∷ asks) e h = refl
found_pending (suc n) a (messaging id ∷ asks) e h = refl

abbrev is_few : List Ask → Bool
is_few [] = true
is_few (a ∷ []) = true
is_few (a ∷ b ∷ asks) = false

nil_of_none : (asks : List Ask) → has_none asks ≡ true → asks ≡ []
nil_of_none [] h = refl
nil_of_none (a ∷ asks) h = absurd (ground arith)

few_tail : (a : Ask) (asks : List Ask) → is_few (a ∷ asks) ≡ true → asks ≡ []
few_tail a [] h = refl
few_tail a (b ∷ asks) h = absurd (ground arith)

first-IsOnly :
    (a b : Ask) (asks : List Ask)
    → b ≡ a
    → has_none (pending_of a) ≡ false
    → is_few (pending (b ∷ asks)) ≡ true
    → IsOnly zero a (b ∷ asks)
unfolding pending set_ask
first-IsOnly done b asks e h k = absurd (ground arith)
first-IsOnly querying b asks e h k =
    let rest : pending asks ≡ [] = few_tail querying (pending asks) (rw e at k) in
    record { only = rw (e, rest) refl; put = λ c. rw rest (append-nil (pending_of c)) }
first-IsOnly (messaging id) b asks e h k =
    let rest : pending asks ≡ [] = few_tail (messaging id) (pending asks) (rw e at k) in
    record { only = rw (e, rest) refl; put = λ c. rw rest (append-nil (pending_of c)) }

found-IsOnly :
    (n : ℕ) (a : Ask) (asks : List Ask)
    → ask_at n asks ≡ a
    → has_none (pending_of a) ≡ false
    → is_few (pending asks) ≡ true
    → IsOnly n a asks
unfolding ask_at pending set_ask
found-IsOnly n done asks e h k = absurd (ground arith)
found-IsOnly n a [] e h k = absurd (ground arith)
found-IsOnly zero a (b ∷ asks) e h k = first-IsOnly a b asks e h k
found-IsOnly (suc n) a (done ∷ asks) e h k =
    let o = found-IsOnly n a asks e h k in record { only = o.only; put = o.put }
found-IsOnly (suc n) a (querying ∷ asks) e h k =
    absurd (both (few_tail querying (pending asks) k) (found_pending n a asks e h))
  where
    both : pending asks ≡ [] → has_none (pending asks) ≡ false → ⊥
    both x y = let z = ap has_none x in ground arith
found-IsOnly (suc n) a (messaging id ∷ asks) e h k =
    absurd (both (few_tail (messaging id) (pending asks) k) (found_pending n a asks e h))
  where
    both : pending asks ≡ [] → has_none (pending asks) ≡ false → ⊥
    both x y = let z = ap has_none x in ground arith

module _ (tab : TabState) (said_by active : Option ℕ) where
  Fits-few : (asks : List Ask) → Fits asks tab said_by active → is_few asks ≡ true
  unfolding Fits
  Fits-few [] f = refl
  Fits-few (a ∷ []) f = refl
  Fits-few (done ∷ b ∷ asks) f = f
  Fits-few (querying ∷ b ∷ asks) f = f
  Fits-few (messaging id ∷ b ∷ asks) f = f

  Fits-sender :
      (asks : List Ask) (other : TabState)
      → Fits asks other said_by active
      → (sender : Option ℕ) → sender ≡ active
      → Fits asks tab sender active
  unfolding Fits
  Fits-sender [] other f sender e = λ _. e
  Fits-sender (querying ∷ []) other f sender e = f
  Fits-sender (messaging id ∷ []) other f sender e = f
  Fits-sender (done ∷ []) other f sender e = f
  Fits-sender (done ∷ b ∷ asks) other f sender e = f
  Fits-sender (querying ∷ b ∷ asks) other f sender e = f
  Fits-sender (messaging id ∷ b ∷ asks) other f sender e = f

-- What stands in a run's place decides.
put-IsCurrent :
    (n : ℕ) (a b : Ask) (p : Panel)
    → IsOnly n a p.asks
    → Fits (pending_of b) p.shown.tab p.said_by p.active
    → IsCurrent (record p { asks = set_ask n b p.asks })
unfolding IsCurrent
put-IsCurrent n a b p o f = subst (λ l. Fits l p.shown.tab p.said_by p.active) (sym (o.put b)) f

start-IsCurrent : (p : Panel) → has_none (pending p.asks) ≡ true → IsCurrent (start_ask p)
unfolding IsCurrent start_ask Fits
start-IsCurrent p h = rw (pending-append p.asks) (rw (nil_of_none (pending p.asks) h) tt)

away-IsCurrent :
    (n : ℕ) (a : Ask) (tab : TabState) (p : Panel)
    → shows_gmail tab ≡ false
    → IsOnly n a p.asks
    → IsCurrent (show tab none none (record p { asks = set_ask n done p.asks }))
unfolding show Fits
away-IsCurrent n a tab p h o =
    put-IsCurrent n a done (show tab none none p) o (λ e. absurd (ground arith))

IsOnly-here :
    (n : ℕ) (a : Ask) (p : Panel)
    → IsCurrent p
    → ask_at n p.asks ≡ a
    → has_none (pending_of a) ≡ false
    → IsOnly n a p.asks
unfolding IsCurrent
IsOnly-here n a p c e h =
    found-IsOnly n a p.asks e h (Fits-few p.shown.tab p.said_by p.active (pending p.asks) c)

asked-IsCurrent :
    (n : ℕ) (id : Option ℕ) (is_gmail : Bool) (p : Panel)
    → IsOnly n querying p.asks
    → IsCurrent (on_query n id is_gmail p)
unfolding on_query Fits
asked-IsCurrent n none is_gmail p o =
    away-IsCurrent n querying not_gmail (record p { active = none }) refl o
asked-IsCurrent n (some id) true p o =
    put-IsCurrent n querying (messaging id) (record p { active = some id }) o refl
asked-IsCurrent n (some id) false p o =
    away-IsCurrent n querying not_gmail (record p { active = some id }) refl o

queried-IsCurrent :
    (n : ℕ) (a : Ask) (tab : Option Tab) (p : Panel)
    → ask_at n p.asks ≡ a
    → IsCurrent p
    → IsCurrent (query_done n a tab p)
unfolding query_done
queried-IsCurrent n done tab p e c = c
queried-IsCurrent n (messaging id) tab p e c = c
queried-IsCurrent n querying tab p e c = go (id_of tab)
  where
    o : IsOnly n querying p.asks
    o = IsOnly-here n querying p c e refl

    go : (id : Option ℕ) → IsCurrent (on_query n id (is_gmail_tab tab) p)
    go id = asked-IsCurrent n id (is_gmail_tab tab) p o

replied-IsCurrent :
    (n : ℕ) (a : Ask) (m : Message) (p : Panel)
    → ask_at n p.asks ≡ a
    → IsCurrent p
    → IsCurrent (reply_done n a m p)
unfolding reply_done show Fits IsCurrent
replied-IsCurrent n done m p e c = c
replied-IsCurrent n querying m p e c = c
replied-IsCurrent n (messaging id) m p e c =
    let o = IsOnly-here n (messaging id) p c e refl in
    put-IsCurrent n (messaging id) done (show gmail (or_else (thread_report m) none) (some id) p) o
      (λ _. sym (subst (λ l. Fits l p.shown.tab p.said_by p.active) o.only c))

failed-IsCurrent :
    (n : ℕ) (a : Ask) (p : Panel)
    → ask_at n p.asks ≡ a
    → IsCurrent p
    → IsCurrent (reply_failed n a p)
unfolding reply_failed
failed-IsCurrent n done p e c = c
failed-IsCurrent n querying p e c = c
failed-IsCurrent n (messaging id) p e c =
    away-IsCurrent n (messaging id) needs_reload p refl (IsOnly-here n (messaging id) p c e refl)

same_tab→eq : (a b : Option ℕ) → same_tab a b ≡ true → a ≡ b
unfolding same_tab
same_tab→eq none none h = refl
same_tab→eq (some a) (some b) h = ap some (let e : a ≡ b = ground arith in e)
same_tab→eq none (some b) h = absurd (ground arith)
same_tab→eq (some a) none h = absurd (ground arith)

message-IsCurrent :
    (report : Option (Option Text)) (sender : Option ℕ) (p : Panel)
    → IsCurrent p
    → IsCurrent (on_message report sender p)
unfolding on_message show IsCurrent
message-IsCurrent none sender p c = c
message-IsCurrent (some thread_id) sender p c =
    if_rule IsCurrent (same_tab sender p.active)
      (λ h.
        Fits-sender gmail p.said_by p.active (pending p.asks) p.shown.tab c sender
          (same_tab→eq sender p.active h))
      (λ _. c)

step-IsCurrent :
    (e : PanelEvent) (p : Panel) → is_in_turn e p ≡ true → IsCurrent p → IsCurrent (panel_step e p)
unfolding panel_step
step-IsCurrent activated p t c = start-IsCurrent p t
step-IsCurrent (updated id is_news) p t c =
    if_rule IsCurrent (same_tab (some id) p.active && is_news)
      (λ h. start-IsCurrent p (ground arith)) (λ _. c)
step-IsCurrent (queried n tab) p t c = queried-IsCurrent n (ask_at n p.asks) tab p refl c
step-IsCurrent (replied n m) p t c = replied-IsCurrent n (ask_at n p.asks) m p refl c
step-IsCurrent (unreached n) p t c = failed-IsCurrent n (ask_at n p.asks) p refl c
step-IsCurrent (received m sender) p t c = message-IsCurrent (thread_report m) sender p c

run-IsCurrent :
    (events : List PanelEvent) (p : Panel)
    → IsInTurn events p
    → IsCurrent p
    → IsCurrent (run_panel events p)
unfolding run_panel IsInTurn
run-IsCurrent [] p t c = c
run-IsCurrent (e ∷ events) p t c =
    run-IsCurrent events (panel_step e p) t.1 (step-IsCurrent e p t.0 c)

-- As long as the panel never asks for the active tab while an earlier question is under way, then
-- after any history in which all questions have been answered, a Gmail thread on screen is what the
-- tab that is active said, and no other tab's.
pub run_panel-current :
    (events : List PanelEvent)
    → IsInTurn events first_panel
    → pending (run_panel events first_panel).asks ≡ []
    → shows_gmail (run_panel events first_panel).shown.tab ≡ true
    → (run_panel events first_panel).said_by ≡ (run_panel events first_panel).active
unfolding IsCurrent Fits pending
run_panel-current events t e =
    let p = run_panel events first_panel in
    subst (λ l. Fits l p.shown.tab p.said_by p.active) e (run-IsCurrent events first_panel t tt)
