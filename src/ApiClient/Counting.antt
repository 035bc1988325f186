-- ===== src/ApiClient/Counting.antt =====
-- lib/api/client.ts: counting a call's fetches, and what a change of one call does to the others.
use aimail.Base.{
  ℕ, zero, suc, ◌+◌, ◌≤◌, Bool, false, Option, none, some, List, [], ◌∷◌, ◌++◌, length, ◌≡◌, refl,
  ap, ◌∙◌, inl, inr, Bool-cases, arith, if◌then◌else◌, ◌==◌,
}
use aimail.ApiClient.{
  Phase, first_sent, waiting, retried, finished, Fetch, first_of, second_of, renewal, Client,
  phase_at, set_phase, resumed, all_resumed, second_fetch, second_fetches,
}

-- Whether a fetch is the call's, and how many are.
unfoldable pub is_of : ℕ → Fetch → Bool
is_of n (first_of m) = m == n
is_of n (second_of m) = m == n
is_of n renewal = false

unfoldable pub fetches_of : ℕ → List Fetch → ℕ
fetches_of n [] = 0
fetches_of n (f ∷ fs) = if is_of n f then suc (fetches_of n fs) else fetches_of n fs

-- How many fetches a call has made where it is.
unfoldable pub Spent : Option Phase → ℕ → Type 0
Spent none k = k ≡ 0
Spent (some first_sent) k = k ≡ 1
Spent (some waiting) k = k ≡ 1
Spent (some retried) k = k ≡ 2
Spent (some (finished o)) k = k ≤ 2

unfoldable pub IsSpent : Client → Type 0
IsSpent w = (n : ℕ) → Spent (phase_at n w.calls) (fetches_of n w.fetched)

pub fetches-append :
    (n : ℕ) (xs ys : List Fetch) → fetches_of n (xs ++ ys) ≡ fetches_of n xs + fetches_of n ys
unfolding fetches_of
fetches-append n [] ys = omega arith
fetches-append n (x ∷ xs) ys = elim (Bool-cases (is_of n x)) [
  | inl e ↦ rw e (omega (arith, fetches-append n xs ys))
  | inr e ↦ rw e (fetches-append n xs ys)
]

pub phase_at-set :
    (n m : ℕ) (p q : Phase) (ps : List Phase)
    → phase_at n ps ≡ some q
    → phase_at m (set_phase n p ps) ≡ (if n == m then some p else phase_at m ps)
unfolding phase_at set_phase
phase_at-set n m p q [] there = cc
phase_at-set zero zero p q (r ∷ ps) there = refl
phase_at-set zero (suc m) p q (r ∷ ps) there = ground arith
phase_at-set (suc n) zero p q (r ∷ ps) there = ground arith
phase_at-set (suc n) (suc m) p q (r ∷ ps) there = ground (arith, phase_at-set n m p q ps there)

pub phase_at-append :
    (n : ℕ) (p : Phase) (ps : List Phase)
    → phase_at n (ps ++ p ∷ []) ≡ (if length ps == n then some p else phase_at n ps)
unfolding phase_at
phase_at-append zero p [] = refl
phase_at-append (suc n) p [] = ground arith
phase_at-append zero p (q ∷ ps) = ground arith
phase_at-append (suc n) p (q ∷ ps) = ground (arith, phase_at-append n p ps)

pub phase_at-end : (ps : List Phase) → phase_at (length ps) ps ≡ none
unfolding phase_at
phase_at-end [] = refl
phase_at-end (p ∷ ps) = phase_at-end ps

pub phase_at-resumed :
    (is_ok : Bool) (n : ℕ) (ps : List Phase)
    → phase_at n (all_resumed is_ok ps)
      ≡ elim (phase_at n ps) [ none ↦ none | some p ↦ some (resumed is_ok p) ]
unfolding phase_at all_resumed
phase_at-resumed is_ok n [] = refl
phase_at-resumed is_ok zero (p ∷ ps) = refl
phase_at-resumed is_ok (suc n) (p ∷ ps) = phase_at-resumed is_ok n ps

-- How many more fetches the end of a renewal makes for a call.
unfoldable pub owed : Option Phase → ℕ
owed (some waiting) = 1
owed _ = 0

second_fetch-other : (m k : ℕ) (p : Phase) → (k == m) ≡ false → fetches_of m (second_fetch k p) ≡ 0
unfolding fetches_of second_fetch is_of
second_fetch-other m k waiting h = rw h refl
second_fetch-other m k first_sent h = refl
second_fetch-other m k retried h = refl
second_fetch-other m k (finished o) h = refl

second_fetch-own : (m : ℕ) (p : Phase) → fetches_of m (second_fetch m p) ≡ owed (some p)
unfolding fetches_of second_fetch is_of owed
second_fetch-own m waiting = ground arith
second_fetch-own m first_sent = refl
second_fetch-own m retried = refl
second_fetch-own m (finished o) = refl

second_fetches-before :
    (m k : ℕ) (ps : List Phase) → suc m ≤ k → fetches_of m (second_fetches k ps) ≡ 0
unfolding second_fetches fetches_of
second_fetches-before m k [] h = refl
second_fetches-before m k (p ∷ ps) h =
    fetches-append m (second_fetch k p) (second_fetches (suc k) ps)
    ∙ omega (
      arith,
      second_fetch-other m k p (ground (arith, h)),
      second_fetches-before m (suc k) ps (omega (arith, h)),
    )

pub second_fetches_lem :
    (i m k : ℕ) (ps : List Phase)
    → m ≡ k + i
    → fetches_of m (second_fetches k ps) ≡ owed (phase_at i ps)
unfolding second_fetches fetches_of phase_at owed
second_fetches_lem i m k [] h = refl
second_fetches_lem zero m k (p ∷ ps) h =
    fetches-append m (second_fetch k p) (second_fetches (suc k) ps)
    ∙ omega (
      arith,
      ap (λ j. fetches_of m (second_fetch j p)) (at h),
      second_fetch-own m p,
      second_fetches-before m (suc k) ps (omega (arith, h)),
    )
  where
    at : m ≡ k + 0 → k ≡ m
    at e = omega (arith, e)
second_fetches_lem (suc i) m k (p ∷ ps) h =
    fetches-append m (second_fetch k p) (second_fetches (suc k) ps)
    ∙ omega (
      arith,
      second_fetch-other m k p (ground (arith, h)),
      second_fetches_lem i m (suc k) ps (omega (arith, h)),
    )
