-- ===== src/ApiClient/Renewals.antt =====
-- lib/api/client.ts: one renewal at a time, and no call that waits for none.
use aimail.Base.{
  ℕ, zero, suc, ◌+◌, Bool, true, false, ◌||◌, Option, none, some, List, [], ◌∷◌, ◌++◌, ◌≡◌, refl,
  sym, ap, ◌∙◌, inl, inr, Bool-cases, arith, if◌then◌else◌, ◌==◌,
}
use aimail.ApiClient.{
  Outcome, Phase, first_sent, waiting, retried, finished, network, aborted, Fetch, first_of,
  second_of, renewal, Client, ClientEvent, started, response, failed, cancelled, renewed, phase_at,
  set_phase, move, begin, renew, respond, broke, resumed, all_resumed, second_fetch, second_fetches,
  end_renewal, client_step, run_client, unauthorized,
}

unfoldable pub is_waiting : Phase → Bool
is_waiting waiting = true
is_waiting _ = false

unfoldable pub any_waiting : List Phase → Bool
any_waiting [] = false
any_waiting (p ∷ ps) = is_waiting p || any_waiting ps

unfoldable pub renewals : List Fetch → ℕ
renewals [] = 0
renewals (renewal ∷ fetches) = suc (renewals fetches)
renewals (first_of n ∷ fetches) = renewals fetches
renewals (second_of n ∷ fetches) = renewals fetches

unfoldable pub in_flight : Bool → ℕ
in_flight true = 1
in_flight false = 0

-- A renewal is in flight exactly while a call waits for one, and all but the one in flight have ended.
pub record IsShared (w : Client) : Type 0 where
  pub waits : w.renewing ≡ any_waiting w.calls
  pub counted : renewals w.fetched ≡ w.ended + in_flight w.renewing

any_waiting-append : (ps : List Phase) → any_waiting (ps ++ first_sent ∷ []) ≡ any_waiting ps
unfolding any_waiting is_waiting
any_waiting-append [] = refl
any_waiting-append (p ∷ ps) = ap (λ b. is_waiting p || b) (any_waiting-append ps)

any_waiting-set :
    (n : ℕ) (p q : Phase) (ps : List Phase)
    → phase_at n ps ≡ some q
    → is_waiting q ≡ false
    → any_waiting (set_phase n p ps) ≡ (is_waiting p || any_waiting ps)
unfolding any_waiting phase_at set_phase
any_waiting-set n p q [] there not_waiting = cc
any_waiting-set zero p q (r ∷ ps) there not_waiting = ground (arith, not_waiting, there)
any_waiting-set (suc n) p q (r ∷ ps) there not_waiting =
    ground (arith, any_waiting-set n p q ps there not_waiting)

any_waiting-resumed : (is_ok : Bool) (ps : List Phase) → any_waiting (all_resumed is_ok ps) ≡ false
unfolding any_waiting all_resumed resumed is_waiting
any_waiting-resumed is_ok [] = refl
any_waiting-resumed true (waiting ∷ ps) = any_waiting-resumed true ps
any_waiting-resumed false (waiting ∷ ps) = any_waiting-resumed false ps
any_waiting-resumed is_ok (first_sent ∷ ps) = any_waiting-resumed is_ok ps
any_waiting-resumed is_ok (retried ∷ ps) = any_waiting-resumed is_ok ps
any_waiting-resumed is_ok (finished o ∷ ps) = any_waiting-resumed is_ok ps

renewals-append : (xs ys : List Fetch) → renewals (xs ++ ys) ≡ renewals xs + renewals ys
unfolding renewals
renewals-append [] ys = omega arith
renewals-append (renewal ∷ xs) ys = omega (arith, renewals-append xs ys)
renewals-append (first_of n ∷ xs) ys = renewals-append xs ys
renewals-append (second_of n ∷ xs) ys = renewals-append xs ys

renewals-second : (n : ℕ) (ps : List Phase) → renewals (second_fetches n ps) ≡ 0
unfolding renewals second_fetches second_fetch
renewals-second n [] = refl
renewals-second n (waiting ∷ ps) = renewals-second (suc n) ps
renewals-second n (first_sent ∷ ps) = renewals-second (suc n) ps
renewals-second n (retried ∷ ps) = renewals-second (suc n) ps
renewals-second n (finished o ∷ ps) = renewals-second (suc n) ps

-- A call that waits for nothing moves to where it waits for nothing.
move-IsShared :
    (n : ℕ) (p q : Phase) (w : Client)
    → phase_at n w.calls ≡ some q
    → is_waiting q ≡ false
    → is_waiting p ≡ false
    → IsShared w
    → IsShared (move n p w)
unfolding move
move-IsShared n p q w there from to shared = record {
  waits =
      shared.waits
      ∙ sym (any_waiting-set n p q w.calls there from ∙ ap (λ b. b || any_waiting w.calls) to);
  counted = shared.counted;
}

renew-IsShared :
    (n : ℕ) (w : Client)
    → phase_at n w.calls ≡ some first_sent
    → IsShared w
    → IsShared (renew (move n waiting w))
unfolding renew move is_waiting in_flight renewals
renew-IsShared n w there shared = elim (Bool-cases w.renewing) [
  | inl e ↦ rw e (record {
    waits = sym (any_waiting-set n waiting first_sent w.calls there refl);
    counted = rw e at shared.counted;
  })
  | inr e ↦ rw e (record {
    waits = sym (any_waiting-set n waiting first_sent w.calls there refl);
    counted =
        renewals-append w.fetched (renewal ∷ [])
        ∙ ap (λ k. k + 1) (shared.counted ∙ ap (λ b. w.ended + in_flight b) e)
        ∙ omega arith;
  })
]

respond-IsShared :
    (n status : ℕ) (o : Option Phase) (w : Client)
    → phase_at n w.calls ≡ o
    → IsShared w
    → IsShared (respond n status o w)
unfolding respond is_waiting
respond-IsShared n status none w there shared = shared
respond-IsShared n status (some waiting) w there shared = shared
respond-IsShared n status (some (finished o)) w there shared = shared
respond-IsShared n status (some first_sent) w there shared =
    elim (Bool-cases (status == unauthorized)) [
      | inl e ↦ rw e (renew-IsShared n w there shared)
      | inr e ↦ rw e (move-IsShared n _ first_sent w there refl refl shared)
    ]
respond-IsShared n status (some retried) w there shared =
    elim (Bool-cases (status == unauthorized)) [
      | inl e ↦ rw e (move-IsShared n _ retried w there refl refl shared)
      | inr e ↦ rw e (move-IsShared n _ retried w there refl refl shared)
    ]

broke-IsShared :
    (n : ℕ) (outcome : Outcome) (o : Option Phase) (w : Client)
    → phase_at n w.calls ≡ o
    → IsShared w
    → IsShared (broke n outcome o w)
unfolding broke is_waiting
broke-IsShared n outcome none w there shared = shared
broke-IsShared n outcome (some waiting) w there shared = shared
broke-IsShared n outcome (some (finished o)) w there shared = shared
broke-IsShared n outcome (some first_sent) w there shared =
    move-IsShared n _ first_sent w there refl refl shared
broke-IsShared n outcome (some retried) w there shared =
    move-IsShared n _ retried w there refl refl shared

begin-IsShared : (w : Client) → IsShared w → IsShared (begin w)
unfolding begin renewals
begin-IsShared w shared = record {
  waits = shared.waits ∙ sym (any_waiting-append w.calls);
  counted = renewals-append w.fetched _ ∙ omega (arith, shared.counted);
}

second-none :
    (is_ok : Bool) (ps : List Phase) → renewals (if is_ok then second_fetches 0 ps else []) ≡ 0
unfolding renewals
second-none true ps = renewals-second 0 ps
second-none false ps = refl

end_renewal-IsShared : (is_ok : Bool) (w : Client) → IsShared w → IsShared (end_renewal is_ok w)
unfolding end_renewal in_flight
end_renewal-IsShared is_ok w shared = elim (Bool-cases w.renewing) [
  | inl e ↦ rw e (record {
    waits = sym (any_waiting-resumed is_ok w.calls);
    counted =
        renewals-append w.fetched _
        ∙ ap (λ k. renewals w.fetched + k) (second-none is_ok w.calls)
        ∙ omega (arith, shared.counted ∙ ap (λ b. w.ended + in_flight b) e);
  })
  | inr e ↦ rw e (record {
    waits = sym e ∙ shared.waits;
    counted = shared.counted ∙ ap (λ b. w.ended + in_flight b) e;
  })
]

step-IsShared : (e : ClientEvent) (w : Client) → IsShared w → IsShared (client_step e w)
unfolding client_step
step-IsShared started w shared = begin-IsShared w shared
step-IsShared (response n status) w shared = respond-IsShared n status _ w refl shared
step-IsShared (failed n) w shared = broke-IsShared n network _ w refl shared
step-IsShared (cancelled n) w shared = broke-IsShared n aborted _ w refl shared
step-IsShared (renewed is_ok) w shared = end_renewal-IsShared is_ok w shared

pub run_client-IsShared :
    (events : List ClientEvent) (w : Client) → IsShared w → IsShared (run_client events w)
unfolding run_client
run_client-IsShared [] w shared = shared
run_client-IsShared (e ∷ events) w shared =
    run_client-IsShared events (client_step e w) (step-IsShared e w shared)
