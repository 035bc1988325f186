-- ===== src/DraftWorkflow/Seconds.antt =====
-- lib/useDraftWorkflow.ts: the five seconds of the undo window.
use aimail.Base.{ℕ, zero, suc, ◌≤◌, ◌≡◌, refl, ap, ◌∙◌, Option, none, some, arith}
use aimail.DraftWorkflow.Types.{Workflow, PendingSend, Interval}
use aimail.DraftWorkflow.Requests.{start_request, start_send, seq_of}
use aimail.DraftWorkflow.Countdown.{
  clear_countdown, begin_undo_countdown, tick, tick_interval, undo_send,
}

-- So many calls of the interval's callback.
pub ticks : ℕ → Workflow → Workflow
ticks zero w = w
ticks (suc n) w = ticks n (tick w)

ticks-closed : (n : ℕ) (w : Workflow) → w.interval ≡ none → ticks n w ≡ w
unfolding ticks tick
ticks-closed zero w c = refl
ticks-closed (suc n) w c =
    let same : tick w ≡ w =
      ap (λ (o : Option Interval). elim o [ none ↦ w | some i ↦ tick_interval i w ]) c in
    rw same (ticks-closed n w c)

undo_send-closed : (w : Workflow) → (undo_send w).interval ≡ none
unfolding undo_send clear_countdown
undo_send-closed w = refl

undo_send-issued : (w : Workflow) → (undo_send w).issued ≡ w.issued
unfolding undo_send clear_countdown
undo_send-issued w = refl

-- The window is open for `p`, with `n` seconds left.
record IsOpen (p : PendingSend) (n : ℕ) (w : Workflow) : Type 0 where
  runs : w.interval ≡ some (record { remaining = n; send = p })
  waits : w.pending_send ≡ some p

tick-early :
    (p : PendingSend) (n : ℕ) (w : Workflow)
    → IsOpen p (suc (suc n)) w
    → IsOpen p (suc n) (tick w)
      × ((tick w).issued ≡ w.issued)
      × ((tick w).request_seq ≡ w.request_seq)
unfolding tick tick_interval
tick-early p n w o = ground arith

-- The send's request is made.
tick-last :
    (p : PendingSend) (w : Workflow)
    → IsOpen p 1 w
    → ((tick w).interval ≡ none) × ((tick w).issued ≡ (start_send p w).issued)
unfolding tick tick_interval start_send start_request seq_of
tick-last p w o = rw (tick, o.runs) (refl, refl)

start_send-issued :
    (p : PendingSend) (w u : Workflow)
    → u.issued ≡ w.issued
    → u.request_seq ≡ w.request_seq
    → (start_send p u).issued ≡ (start_send p w).issued
unfolding start_send start_request seq_of
start_send-issued p w u i r = rw (i, r) refl

ticks-early :
    (p : PendingSend) (n m : ℕ) (w : Workflow)
    → IsOpen p (suc n) w
    → m ≤ n
    → (ticks m w).issued ≡ w.issued
unfolding ticks
ticks-early p n zero w o h = refl
ticks-early p zero (suc m) w o h = absurd (omega arith)
ticks-early p (suc n) (suc m) w o h =
    let (still, same, seq) = tick-early p n w o in
    ticks-early p n m (tick w) still (omega arith) ∙ same

ticks-last :
    (p : PendingSend) (n : ℕ) (w : Workflow)
    → IsOpen p (suc n) w
    → ((ticks (suc n) w).interval ≡ none) × ((ticks (suc n) w).issued ≡ (start_send p w).issued)
unfolding ticks
ticks-last p zero w o = tick-last p w o
ticks-last p (suc n) w o =
    let (still, same, seq) = tick-early p n w o in
    let (stopped, done) = ticks-last p n (tick w) still in
    (stopped, done ∙ start_send-issued p w (tick w) same seq)

begin_undo_countdown-IsOpen :
    (p : PendingSend) (w : Workflow) → IsOpen p 5 (begin_undo_countdown p w)
unfolding begin_undo_countdown
begin_undo_countdown-IsOpen p w = record { runs = refl; waits = refl }

-- Once a send is approved, and with nothing but seconds passing, nothing is requested for four seconds. At the fifth the send is requested,
-- with the text and the choice that were approved, and no further second requests anything. After
-- an Undo within the four seconds nothing is requested, however long the clock runs on.
pub undo_window :
    (p : PendingSend) (w : Workflow) (m more : ℕ)
    → m ≤ 4
    → ((ticks m (begin_undo_countdown p w)).issued ≡ (begin_undo_countdown p w).issued)
      × ((ticks more (ticks 5 (begin_undo_countdown p w))).issued
          ≡ (start_send p (begin_undo_countdown p w)).issued)
      × ((ticks more (undo_send (ticks m (begin_undo_countdown p w)))).issued
          ≡ (begin_undo_countdown p w).issued)
undo_window p w m more h =
    let opened = begin_undo_countdown-IsOpen p w in
    let early = ticks-early p 4 m (begin_undo_countdown p w) opened h in
    let (stopped, done) = ticks-last p 4 (begin_undo_countdown p w) opened in
    (
      early,
      ap (λ (u : Workflow). u.issued) (ticks-closed more _ stopped) ∙ done,
      ap (λ (u : Workflow). u.issued) (ticks-closed more _ (undo_send-closed _))
          ∙ undo_send-issued _
          ∙ early,
    )
