-- ===== src/State/Polling.antt =====
-- The poll loop `Run` of internal/state/engine.go: its two flags, and one step for each case of its
-- `select`. The cancellation of the context, which ends it, is not a step.
use herdr_phone.Base.{
  ℕ, ◌+◌, List, [], ◌∷◌, ◌++◌, ◌≡◌, refl, ◌∙◌, Bool, true, false, arith, All, if◌then◌else◌,
}

-- `started` counts the polls that were begun, and `applied` those that were integrated.
pub record Loop : Type 0 where
  pub in_progress : Bool
  pub queued : Bool
  pub started : ℕ
  pub applied : ℕ

pub data Event : Type 0 where
  tick wake polled : Event

unfoldable pub trigger : Loop → Loop
trigger l =
    if l.in_progress
    then record l { queued = true }
    else record l { in_progress = true; started = l.started + 1 }

unfoldable pub loop_step : Loop → Event → Loop
unfolding trigger
loop_step l tick = trigger l
loop_step l wake = trigger l
loop_step l polled =
    let idle = record l { in_progress = false; applied = l.applied + 1 } in
    if l.queued then trigger (record idle { queued = false }) else idle

unfoldable pub loop_run : Loop → List Event → Loop
loop_run l [] = l
loop_run l (e ∷ es) = loop_run (loop_step l e) es

-- The start of `Run`, which polls at once.
unfoldable pub loop_start : Loop
unfolding trigger
loop_start = trigger (record { in_progress = false; queued = false; started = 0; applied = 0 })

abbrev one : Bool → ℕ
one true = 1
one false = 0

pub record IsSingle (l : Loop) : Type 0 where
  pub in_flight : l.started ≡ l.applied + one l.in_progress
  pub queue_waits : l.queued ≡ true → l.in_progress ≡ true

-- A poll can only end while one is in progress.
abbrev pub IsPossible : Loop → List Event → Type 0
IsPossible l [] = Unit
IsPossible l (polled ∷ es) = (l.in_progress ≡ true) × IsPossible (loop_step l polled) es
IsPossible l (e ∷ es) = IsPossible (loop_step l e) es

loop_step-IsSingle :
    (l : Loop) (e : Event)
    → (e ≡ polled → l.in_progress ≡ true)
    → IsSingle l
    → IsSingle (loop_step l e)
unfolding loop_step
loop_step-IsSingle l tick h s = ground (arith, s.in_flight, s.queue_waits)
loop_step-IsSingle l wake h s = ground (arith, s.in_flight, s.queue_waits)
loop_step-IsSingle l polled h s = ground (arith, h refl, s.in_flight, s.queue_waits)

loop_run_from :
    (l : Loop) (es : List Event) → IsPossible l es → IsSingle l → IsSingle (loop_run l es)
unfolding loop_run
loop_run_from l [] h s = s
loop_run_from l (tick ∷ es) h s =
    loop_run_from (loop_step l tick) es h (loop_step-IsSingle l tick (λ e. ground (arith, e)) s)
loop_run_from l (wake ∷ es) h s =
    loop_run_from (loop_step l wake) es h (loop_step-IsSingle l wake (λ e. ground (arith, e)) s)
loop_run_from l (polled ∷ es) (h, hs) s =
    loop_run_from (loop_step l polled) es hs (loop_step-IsSingle l polled (λ _. h) s)

-- From the start of the loop, in any order of ticks, wakes and ends of polls: at most one poll is in
-- flight, and a poll is queued only behind one that is.
pub loop_run-IsSingle :
    (es : List Event) → IsPossible loop_start es → IsSingle (loop_run loop_start es)
unfolding loop_start
loop_run-IsSingle es h =
    loop_run_from loop_start es h (record { in_flight = refl; queue_waits = λ e. refl })

-- A tick or a wake.
abbrev pub Triggers : Event → Type 0
Triggers e = (e ≡ polled) → ⊥

busy_waits :
    (l : Loop) (es : List Event)
    → l.in_progress ≡ true
    → All Triggers es
    → (loop_run l es).started ≡ l.started
unfolding loop_run loop_step
busy_waits l [] b h = refl
busy_waits l (tick ∷ es) b (h, hs) =
    busy_waits (loop_step l tick) es (ground (arith, b)) hs ∙ ground (arith, b)
busy_waits l (wake ∷ es) b (h, hs) =
    busy_waits (loop_step l wake) es (ground (arith, b)) hs ∙ ground (arith, b)
busy_waits l (polled ∷ es) b (h, hs) = absurd (h refl)

busy_starts :
    (l : Loop) (es : List Event)
    → l.in_progress ≡ true
    → l.queued ≡ true
    → All Triggers es
    → (loop_run l (es ++ polled ∷ [])).started ≡ l.started + 1
unfolding loop_run loop_step
busy_starts l [] b q h = ground (arith, b, q)
busy_starts l (tick ∷ es) b q (h, hs) =
    busy_starts (loop_step l tick) es (ground (arith, b)) (ground (arith, b)) hs ∙ ground (arith, b)
busy_starts l (wake ∷ es) b q (h, hs) =
    busy_starts (loop_step l wake) es (ground (arith, b)) (ground (arith, b)) hs ∙ ground (arith, b)
busy_starts l (polled ∷ es) b q (h, hs) = absurd (h refl)

-- Nothing is left to do when the poll that was queued has ended.
busy_settles :
    (l : Loop) (es : List Event)
    → l.in_progress ≡ true
    → l.queued ≡ true
    → All Triggers es
    → ((loop_run l (es ++ polled ∷ polled ∷ [])).started ≡ l.started + 1)
      × ((loop_run l (es ++ polled ∷ polled ∷ [])).in_progress ≡ false)
unfolding loop_run loop_step
busy_settles l [] b q h = ground (arith, b, q)
busy_settles l (tick ∷ es) b q (h, hs) =
    let (n, idle) = busy_settles (loop_step l tick) es (ground (arith, b)) (ground (arith, b)) hs in
    (n ∙ ground (arith, b), idle)
busy_settles l (wake ∷ es) b q (h, hs) =
    let (n, idle) = busy_settles (loop_step l wake) es (ground (arith, b)) (ground (arith, b)) hs in
    (n ∙ ground (arith, b), idle)
busy_settles l (polled ∷ es) b q (h, hs) = absurd (h refl)

wake_settles :
    (l : Loop) (es : List Event)
    → IsSingle l
    → All Triggers es
    → (l.in_progress ≡ false
        → ((loop_run l (wake ∷ [])).started ≡ l.started + 1)
          × ((loop_run l (wake ∷ polled ∷ [])).started ≡ l.started + 1)
          × ((loop_run l (wake ∷ polled ∷ [])).in_progress ≡ false))
      × (l.in_progress ≡ true
          → ((loop_run l (wake ∷ es)).started ≡ l.started)
            × ((loop_run l (wake ∷ es ++ polled ∷ [])).started ≡ l.started + 1)
            × ((loop_run l (wake ∷ es ++ polled ∷ polled ∷ [])).started ≡ l.started + 1)
            × ((loop_run l (wake ∷ es ++ polled ∷ polled ∷ [])).in_progress ≡ false))
unfolding loop_run loop_step
wake_settles l es single h = (
  λ idle. (
    ground (arith, idle),
    ground (arith, idle, single.queue_waits),
    ground (arith, idle, single.queue_waits),
  ),
  λ busy.
      let (n, idle) =
        busy_settles (loop_step l wake) es (ground (arith, busy)) (ground (arith, busy)) h in
      (
        busy_waits (loop_step l wake) es (ground (arith, busy)) h ∙ ground (arith, busy),
        busy_starts (loop_step l wake) es (ground (arith, busy)) (ground (arith, busy)) h
            ∙ ground (arith, busy),
        n ∙ ground (arith, busy),
        idle,
      ),
)

-- No wake is lost, and none is answered twice, at any time in a run of the loop. If no poll is in
-- progress, a wake starts one, and the loop is idle when that one ends. Otherwise, however many ticks
-- and wakes come before the poll in progress ends: none is started until then, exactly one is started
-- when it ends, and the loop is idle when that one ends, if nothing has come since.
pub wake_served :
    (past es : List Event)
    → IsPossible loop_start past
    → All Triggers es
    → let l = loop_run loop_start past in
      (l.in_progress ≡ false
        → ((loop_run l (wake ∷ [])).started ≡ l.started + 1)
          × ((loop_run l (wake ∷ polled ∷ [])).started ≡ l.started + 1)
          × ((loop_run l (wake ∷ polled ∷ [])).in_progress ≡ false))
      × (l.in_progress ≡ true
          → ((loop_run l (wake ∷ es)).started ≡ l.started)
            × ((loop_run l (wake ∷ es ++ polled ∷ [])).started ≡ l.started + 1)
            × ((loop_run l (wake ∷ es ++ polled ∷ polled ∷ [])).started ≡ l.started + 1)
            × ((loop_run l (wake ∷ es ++ polled ∷ polled ∷ [])).in_progress ≡ false))
wake_served past es h k = wake_settles (loop_run loop_start past) es (loop_run-IsSingle past h) k
