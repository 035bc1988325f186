-- ===== src/ApiClient.antt =====
-- lib/api/client.ts: every call of the dashboard, and the renewal of the session that they share. The
-- calls under way are numbered by their place; fetches are events' answers, in any order.
use aimail.Base.{
  ℕ, zero, suc, ◌+◌, Bool, true, false, not, ◌&&◌, ◌||◌, Option, none, some, List, [], ◌∷◌, ◌++◌,
  String, ◌===◌, length, leb, ◌==◌, if◌then◌else◌,
}
pub mod Renewals
pub mod Counting
pub mod Fetches
pub mod Session
pub mod Tests

pub data Outcome : Type 0 where
  answered refused : ℕ → Outcome
  signed_out network aborted : Outcome

-- Where a call of `sendSignedIn` is: its first fetch, its wait for the renewal, its second fetch.
pub data Phase : Type 0 where
  first_sent waiting retried : Phase
  finished : Outcome → Phase

-- A fetch: a call's first or second, or the renewal.
pub data Fetch : Type 0 where
  first_of second_of : ℕ → Fetch
  renewal : Fetch

-- `renewing` is whether the promise is there; `ended` counts the renewals that ended.
pub record Client : Type 0 where
  pub calls : List Phase
  pub renewing : Bool
  pub fetched : List Fetch
  pub ended : ℕ

-- As the page loads.
abbrev pub idle : Client
idle = record { calls = []; renewing = false; fetched = []; ended = 0 }

pub data ClientEvent : Type 0 where
  started : ClientEvent
  response : ℕ → ℕ → ClientEvent
  failed cancelled : ℕ → ClientEvent
  renewed : Bool → ClientEvent

-- Who answers a call of `request`.
pub data Answerer : Type 0 where
  demo no_backend service : Answerer

unfoldable pub answerer : Bool → Bool → Bool → Answerer
answerer is_demo is_live is_status_path =
    if is_demo && not is_status_path
    then demo
    else if not is_live && not is_status_path
    then no_backend
    else service

abbrev pub unauthorized : ℕ
unauthorized = 401

-- `res.ok`, and what `request` makes of a response.
unfoldable pub is_ok : ℕ → Bool
is_ok status = leb 200 status && leb status 299

unfoldable pub outcome_of : ℕ → Outcome
outcome_of status = if is_ok status then answered status else refused status

unfoldable pub phase_at : ℕ → List Phase → Option Phase
phase_at n [] = none
phase_at zero (p ∷ ps) = some p
phase_at (suc n) (p ∷ ps) = phase_at n ps

unfoldable pub set_phase : ℕ → Phase → List Phase → List Phase
set_phase n p [] = []
set_phase zero p (q ∷ ps) = p ∷ ps
set_phase (suc n) p (q ∷ ps) = q ∷ set_phase n p ps

unfoldable pub move : ℕ → Phase → Client → Client
move n p w = record w { calls = set_phase n p w.calls }

unfoldable pub begin : Client → Client
begin w = record w {
  calls = w.calls ++ first_sent ∷ [];
  fetched = w.fetched ++ first_of (length w.calls) ∷ [];
}

-- `renewing ??= send(…)`.
unfoldable pub renew : Client → Client
renew w =
    if w.renewing then w else record w { renewing = true; fetched = w.fetched ++ renewal ∷ [] }

-- A response to a fetch of the call.
unfoldable pub respond : ℕ → ℕ → Option Phase → Client → Client
respond n status (some first_sent) w =
    if status == unauthorized
    then renew (move n waiting w)
    else move n (finished (outcome_of status)) w
respond n status (some retried) w =
    if status == unauthorized
    then move n (finished signed_out) w
    else move n (finished (outcome_of status)) w
respond n status _ w = w

-- A fetch of the call was refused by the network, or cancelled.
unfoldable pub broke : ℕ → Outcome → Option Phase → Client → Client
broke n outcome (some first_sent) w = move n (finished outcome) w
broke n outcome (some retried) w = move n (finished outcome) w
broke n outcome _ w = w

-- What a renewal makes of a call.
unfoldable pub resumed : Bool → Phase → Phase
resumed is_ok waiting = if is_ok then retried else finished signed_out
resumed is_ok p = p

unfoldable pub all_resumed : Bool → List Phase → List Phase
all_resumed is_ok [] = []
all_resumed is_ok (p ∷ ps) = resumed is_ok p ∷ all_resumed is_ok ps

unfoldable pub second_fetch : ℕ → Phase → List Fetch
second_fetch n waiting = second_of n ∷ []
second_fetch n _ = []

unfoldable pub second_fetches : ℕ → List Phase → List Fetch
second_fetches n [] = []
second_fetches n (p ∷ ps) = second_fetch n p ++ second_fetches (suc n) ps

unfoldable pub end_renewal : Bool → Client → Client
end_renewal is_ok w =
    if w.renewing
    then record w {
      renewing = false;
      calls = all_resumed is_ok w.calls;
      fetched = w.fetched ++ (if is_ok then second_fetches 0 w.calls else []);
      ended = w.ended + 1;
    }
    else w

unfoldable pub client_step : ClientEvent → Client → Client
client_step started w = begin w
client_step (response n status) w = respond n status (phase_at n w.calls) w
client_step (failed n) w = broke n network (phase_at n w.calls) w
client_step (cancelled n) w = broke n aborted (phase_at n w.calls) w
client_step (renewed is_ok) w = end_renewal is_ok w

unfoldable pub run_client : List ClientEvent → Client → Client
run_client [] w = w
run_client (e ∷ events) w = run_client events (client_step e w)
