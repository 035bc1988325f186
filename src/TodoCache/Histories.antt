-- ===== src/TodoCache/Histories.antt =====
-- lib/queries/todo.ts: the cached To-do over a history of removals, answers and failures.
use aimail.Base.{
  ℕ, zero, suc, Bool, true, false, Option, none, some, List, [], ◌∷◌, All, All-append, if_rule,
}
use aimail.Demo.Todo.{Todo}
use aimail.TodoCache.{
  TodoCache, Removal, CacheEvent, fetch_started, fetched, removed, settled, cache_step, run_cache,
  on_mutate, on_error, on_settled, nth_removal, settle, removed_rows,
}
use aimail.TodoCache.Counts.{IsCounted}
use aimail.TodoCache.Removals.{remove_lem}

abbrev pub IsCountedCached : Option Todo → Type 0
IsCountedCached none = Unit
IsCountedCached (some todo) = IsCounted todo

-- The service's answers count their rows.
abbrev pub IsCountedEvent : CacheEvent → Type 0
IsCountedEvent (fetched todo) = IsCounted todo
IsCountedEvent _ = Unit

pub record IsCountedCache (c : TodoCache) : Type 0 where
  pub shown : IsCountedCached c.cached
  pub befores : All (λ (e : Removal × Option Todo). IsCountedCached e.1) c.under_way

removed_rows-IsCounted :
    (r : Removal) (o : Option Todo) → IsCountedCached o → IsCountedCached (removed_rows r o)
unfolding removed_rows
removed_rows-IsCounted r none c = tt
removed_rows-IsCounted r (some todo) c = (remove_lem r todo c).0

abbrev IsCountedRemoval : Option (Removal × Option Todo) → Type 0
IsCountedRemoval none = Unit
IsCountedRemoval (some e) = IsCountedCached e.1

nth-IsCounted :
    (n : ℕ) (rs : List (Removal × Option Todo))
    → All (λ (e : Removal × Option Todo). IsCountedCached e.1) rs
    → IsCountedRemoval (nth_removal n rs)
unfolding nth_removal
nth-IsCounted n [] h = tt
nth-IsCounted zero (r ∷ rs) h = h.0
nth-IsCounted (suc n) (r ∷ rs) h = nth-IsCounted n rs h.1

settle-IsCounted :
    (is_ok : Bool) (o : Option (Removal × Option Todo)) (c : TodoCache)
    → IsCountedCache c
    → IsCountedRemoval o
    → IsCountedCache (settle is_ok o c)
unfolding settle on_settled on_error
settle-IsCounted is_ok none c h r = h
settle-IsCounted true (some (r, before)) c h w = record { shown = h.shown; befores = h.befores }
settle-IsCounted false (some (r, none)) c h w = record { shown = h.shown; befores = h.befores }
settle-IsCounted false (some (r, some before)) c h w = record { shown = w; befores = h.befores }

step-IsCounted :
    (e : CacheEvent) (c : TodoCache)
    → IsCountedEvent e
    → IsCountedCache c
    → IsCountedCache (cache_step e c)
unfolding cache_step on_mutate
step-IsCounted fetch_started c w h = record { shown = h.shown; befores = h.befores }
step-IsCounted (fetched todo) c w h =
    if_rule IsCountedCache c.is_fetching (λ _. record { shown = w; befores = h.befores }) (λ _. h)
step-IsCounted (removed r) c w h = record {
  shown = removed_rows-IsCounted r c.cached h.shown;
  befores =
      All-append (λ (e : Removal × Option Todo). IsCountedCached e.1) c.under_way
        ((r, c.cached) ∷ []) h.befores (h.shown, tt);
}
step-IsCounted (settled n is_ok) c w h =
    settle-IsCounted is_ok (nth_removal n c.under_way) c h (nth-IsCounted n c.under_way h.befores)

pub run-IsCounted :
    (events : List CacheEvent) (c : TodoCache)
    → All IsCountedEvent events
    → IsCountedCache c
    → IsCountedCache (run_cache events c)
unfolding run_cache
run-IsCounted [] c w h = h
run-IsCounted (e ∷ events) c w h =
    run-IsCounted events (cache_step e c) w.1 (step-IsCounted e c w.0 h)

pub mutate-IsCounted :
    (r : Removal) (c : TodoCache) → IsCountedCache c → IsCountedCache (on_mutate r c)
unfolding on_mutate cache_step
mutate-IsCounted r c h = step-IsCounted (removed r) c tt h
