-- ===== src/ApiClient/Tests.antt =====
-- lib/api/client.ts: two calls that find the session expired at once.
use aimail.Base.{ℕ, ◌≤◌, true, List, [], ◌∷◌, ◌≡◌, refl}
use aimail.ApiClient.{
  idle, broke, first_of, second_of, renewal, ClientEvent, started, response, failed, renewed, begin,
  renew, move, respond, resumed, all_resumed, second_fetch, second_fetches, end_renewal,
  client_step, run_client, phase_at, set_phase, outcome_of, is_ok,
}
use aimail.ApiClient.Counting.{fetches_of}
use aimail.ApiClient.Session.{run_client-renews_once}
use aimail.ApiClient.Renewals.{IsShared}

abbrev history : List ClientEvent
history =
    started
    ∷ started
    ∷ response 0 401
    ∷ response 1 401
    ∷ renewed true
    ∷ response 0 200
    ∷ failed 1
    ∷ []

one_renewal :
    (run_client history idle).fetched
    ≡ first_of 0 ∷ first_of 1 ∷ renewal ∷ second_of 0 ∷ second_of 1 ∷ []
unfolding run_client client_step begin respond renew move phase_at set_phase end_renewal
    second_fetches second_fetch all_resumed resumed outcome_of is_ok broke
one_renewal = refl

run_client-renews_once_example :
    IsShared (run_client history idle)
    × ((n : ℕ) → fetches_of n (run_client history idle).fetched ≤ 2)
run_client-renews_once_example = run_client-renews_once history
