-- ===== src/ApiClient/Session.antt =====
-- lib/api/client.ts: the session's renewal and the fetches of a call, over any history.
use aimail.Base.{ℕ, ◌≤◌, List, refl}
use aimail.ApiClient.{ClientEvent, idle, run_client, phase_at}
use aimail.ApiClient.Renewals.{IsShared, any_waiting, renewals, in_flight, run_client-IsShared}
use aimail.ApiClient.Counting.{fetches_of, Spent, IsSpent}
use aimail.ApiClient.Fetches.{Spent-le, run_client-IsSpent}

idle-IsShared : IsShared idle
unfolding any_waiting renewals in_flight
idle-IsShared = record { waits = refl; counted = refl }

idle-IsSpent : IsSpent idle
unfolding IsSpent Spent phase_at fetches_of
idle-IsSpent n = refl

-- After any history of calls and answers, a renewal of the session is in flight exactly while some
-- call waits for one, so that no call waits in vain; every renewal but the one in flight has ended,
-- so that two are never in flight at once; and no call is fetched more than twice.
pub run_client-renews_once :
    (events : List ClientEvent)
    → IsShared (run_client events idle)
      × ((n : ℕ) → fetches_of n (run_client events idle).fetched ≤ 2)
unfolding IsSpent
run_client-renews_once events = (
  run_client-IsShared events idle idle-IsShared,
  λ n. Spent-le _ _ (run_client-IsSpent events idle idle-IsSpent n),
)
