-- ===== src/ApiClient/Fetches.antt =====
-- lib/api/client.ts: how often a call is fetched.
use aimail.Base.{
  ℕ, ◌+◌, ◌≤◌, Bool, true, false, Option, none, some, List, [], ◌∷◌, length, ◌≡◌, refl, sym, ap,
  ◌∙◌, inl, inr, Bool-cases, arith, if◌then◌else◌, ◌==◌, subst,
}
use aimail.ApiClient.{
  Outcome, Phase, first_sent, waiting, retried, finished, network, aborted, renewal, Client,
  ClientEvent, started, response, failed, cancelled, renewed, phase_at, move, begin, renew, respond,
  broke, resumed, second_fetches, end_renewal, client_step, run_client, unauthorized,
}
use aimail.ApiClient.Counting.{
  is_of, fetches_of, Spent, IsSpent, fetches-append, phase_at-set, phase_at-append, phase_at-end,
  phase_at-resumed, owed, second_fetches_lem,
}

-- A call that is where another was, with as many fetches.
Spent-as : (o u : Option Phase) (k l : ℕ) → u ≡ o → l ≡ k → Spent o k → Spent u l
Spent-as o u k l phase fetches spent =
    subst (λ x. Spent x l) (sym phase) (subst (Spent o) (sym fetches) spent)

begin-IsSpent : (w : Client) → IsSpent w → IsSpent (begin w)
unfolding IsSpent begin Spent fetches_of is_of
begin-IsSpent w spent n = elim (Bool-cases (length w.calls == n)) [
  | inl e ↦
      let same : length w.calls ≡ n = ground (arith, e) in
      let none_there : phase_at n w.calls ≡ none =
        ap (λ m. phase_at m w.calls) (sym same) ∙ phase_at-end w.calls in
      let unspent : fetches_of n w.fetched ≡ 0 =
        Spent-as _ none _ (fetches_of n w.fetched) (sym none_there) refl (spent n) in
      Spent-as (some first_sent) _ 1 _
        (phase_at-append n first_sent w.calls
          ∙ ap (λ b. if b then some first_sent else phase_at n w.calls) e)
        (fetches-append n w.fetched _
          ∙ ap (λ b. fetches_of n w.fetched + (if b then 1 else 0)) e
          ∙ omega (arith, unspent))
        refl
  | inr e ↦
      Spent-as (phase_at n w.calls) _ (fetches_of n w.fetched) _
        (phase_at-append n first_sent w.calls
          ∙ ap (λ b. if b then some first_sent else phase_at n w.calls) e)
        (fetches-append n w.fetched _
          ∙ ap (λ b. fetches_of n w.fetched + (if b then 1 else 0)) e
          ∙ omega arith)
        (spent n)
]

move-IsSpent :
    (n : ℕ) (p q : Phase) (w : Client)
    → phase_at n w.calls ≡ some q
    → ((k : ℕ) → Spent (some q) k → Spent (some p) k)
    → IsSpent w
    → IsSpent (move n p w)
unfolding IsSpent move
move-IsSpent n p q w there goes spent m = elim (Bool-cases (n == m)) [
  | inl e ↦
      let same : n ≡ m = ground (arith, e) in
      Spent-as (some p) _ (fetches_of m w.fetched) _
        (phase_at-set n m p q w.calls there ∙ ap (λ b. if b then some p else phase_at m w.calls) e)
        refl
        (goes _ (
          Spent-as (phase_at m w.calls) (some q) _ (fetches_of m w.fetched)
            (sym (ap (λ j. phase_at j w.calls) (sym same) ∙ there)) refl (spent m)))
  | inr e ↦
      Spent-as (phase_at m w.calls) _ (fetches_of m w.fetched) _
        (phase_at-set n m p q w.calls there ∙ ap (λ b. if b then some p else phase_at m w.calls) e)
        refl (spent m)
]

renew-IsSpent : (w : Client) → IsSpent w → IsSpent (renew w)
unfolding IsSpent renew fetches_of is_of
renew-IsSpent w spent n = elim (Bool-cases w.renewing) [
  | inl e ↦ rw (renew, e) (spent n)
  | inr e ↦
      rw (renew, e)
        (Spent-as (phase_at n w.calls) _ (fetches_of n w.fetched) _ refl
          (fetches-append n w.fetched (renewal ∷ []) ∙ omega arith) (spent n))
]

respond-IsSpent :
    (n status : ℕ) (o : Option Phase) (w : Client)
    → phase_at n w.calls ≡ o
    → IsSpent w
    → IsSpent (respond n status o w)
unfolding respond Spent
respond-IsSpent n status none w there spent = spent
respond-IsSpent n status (some waiting) w there spent = spent
respond-IsSpent n status (some (finished o)) w there spent = spent
respond-IsSpent n status (some first_sent) w there spent =
    elim (Bool-cases (status == unauthorized)) [
      | inl e ↦ rw e (
          renew-IsSpent (move n waiting w)
            (move-IsSpent n waiting first_sent w there (λ k h. h) spent))
      | inr e ↦ rw e (move-IsSpent n _ first_sent w there (λ k h. omega (arith, h)) spent)
    ]
respond-IsSpent n status (some retried) w there spent = elim (Bool-cases (status == unauthorized)) [
  | inl e ↦ rw e (move-IsSpent n _ retried w there (λ k h. omega (arith, h)) spent)
  | inr e ↦ rw e (move-IsSpent n _ retried w there (λ k h. omega (arith, h)) spent)
]

broke-IsSpent :
    (n : ℕ) (outcome : Outcome) (o : Option Phase) (w : Client)
    → phase_at n w.calls ≡ o
    → IsSpent w
    → IsSpent (broke n outcome o w)
unfolding broke Spent
broke-IsSpent n outcome none w there spent = spent
broke-IsSpent n outcome (some waiting) w there spent = spent
broke-IsSpent n outcome (some (finished o)) w there spent = spent
broke-IsSpent n outcome (some first_sent) w there spent =
    move-IsSpent n _ first_sent w there (λ k h. omega (arith, h)) spent
broke-IsSpent n outcome (some retried) w there spent =
    move-IsSpent n _ retried w there (λ k h. omega (arith, h)) spent

resumed-Spent :
    (is_ok : Bool) (o : Option Phase) (k : ℕ)
    → Spent o k
    → Spent
        (elim o [ none ↦ none | some p ↦ some (resumed is_ok p) ])
        (k + (if is_ok then owed o else 0))
unfolding Spent resumed owed
resumed-Spent true none k h = omega (arith, h)
resumed-Spent false none k h = omega (arith, h)
resumed-Spent true (some waiting) k h = omega (arith, h)
resumed-Spent false (some waiting) k h = omega (arith, h)
resumed-Spent true (some first_sent) k h = omega (arith, h)
resumed-Spent false (some first_sent) k h = omega (arith, h)
resumed-Spent true (some retried) k h = omega (arith, h)
resumed-Spent false (some retried) k h = omega (arith, h)
resumed-Spent true (some (finished o)) k h = omega (arith, h)
resumed-Spent false (some (finished o)) k h = omega (arith, h)

fetches-renewed :
    (is_ok : Bool) (n : ℕ) (ps : List Phase)
    → fetches_of n (if is_ok then second_fetches 0 ps else [])
      ≡ (if is_ok then owed (phase_at n ps) else 0)
unfolding fetches_of
fetches-renewed true n ps = second_fetches_lem n n 0 ps (omega arith)
fetches-renewed false n ps = refl

end_renewal-IsSpent : (is_ok : Bool) (w : Client) → IsSpent w → IsSpent (end_renewal is_ok w)
unfolding IsSpent end_renewal
end_renewal-IsSpent is_ok w spent n = elim (Bool-cases w.renewing) [
  | inl e ↦
      rw (end_renewal, e)
        (Spent-as _ _ _ _ (phase_at-resumed is_ok n w.calls)
          (fetches-append n w.fetched _
            ∙ ap (λ k. fetches_of n w.fetched + k) (fetches-renewed is_ok n w.calls))
          (resumed-Spent is_ok (phase_at n w.calls) (fetches_of n w.fetched) (spent n)))
  | inr e ↦ rw (end_renewal, e) (spent n)
]

step-IsSpent : (e : ClientEvent) (w : Client) → IsSpent w → IsSpent (client_step e w)
unfolding client_step
step-IsSpent started w spent = begin-IsSpent w spent
step-IsSpent (response n status) w spent = respond-IsSpent n status _ w refl spent
step-IsSpent (failed n) w spent = broke-IsSpent n network _ w refl spent
step-IsSpent (cancelled n) w spent = broke-IsSpent n aborted _ w refl spent
step-IsSpent (renewed is_ok) w spent = end_renewal-IsSpent is_ok w spent

pub run_client-IsSpent :
    (events : List ClientEvent) (w : Client) → IsSpent w → IsSpent (run_client events w)
unfolding run_client
run_client-IsSpent [] w spent = spent
run_client-IsSpent (e ∷ events) w spent =
    run_client-IsSpent events (client_step e w) (step-IsSpent e w spent)

pub Spent-le : (o : Option Phase) (k : ℕ) → Spent o k → k ≤ 2
unfolding Spent
Spent-le none k h = omega (arith, h)
Spent-le (some first_sent) k h = omega (arith, h)
Spent-le (some waiting) k h = omega (arith, h)
Spent-le (some retried) k h = omega (arith, h)
Spent-le (some (finished o)) k h = h
