-- ===== src/Transport/Timers/Handles.antt =====
-- src/transport/data_loop_listener.cpp, lines 11-42 and 98-121: the ids of timers, and the memory of their handles.
use commutil.Common.{
  ℕ, ◌+◌, ◌<◌, ◌≡◌, ◌≢◌, ◌⊎◌, inl, inr, refl, sym, ap, ◌∙◌, Bool, true, false, Option, none, some,
  List, [], ◌∷◌, arith, ◌==◌, ==_iff, ==_self, Bool-cases, u64_mod, add64,
}
use mathlib.Core.Path.{subst}
use commutil.Err.{e_not_found, e_invalid_argument, e_system_failure, Out, ok, err}
use commutil.Transport.Memory.{other_address}
use commutil.Transport.Timers.{
  TimerType, tt_none, tt_one_shot, tt_periodic, TimerData, DataLoopListener, find_timer,
  erase_timer, type_for, start_loop_timer, stop_loop_timer,
}

-- Each id in the map was given out, and no two entries have the same.
abbrev pub AllBelow : ℕ → List (ℕ × TimerData) → Type 0
AllBelow n [] = Unit
AllBelow n (entry ∷ rest) = (entry.0 < n) × (find_timer entry.0 rest ≡ none) × AllBelow n rest

abbrev pub IsFresh : DataLoopListener → Type 0
IsFresh s = AllBelow s.next_timer_id s.timer_map

find_timer-above :
    (n : ℕ) (timers : List (ℕ × TimerData)) → AllBelow n timers → find_timer n timers ≡ none
unfolding find_timer
find_timer-above n [] below = refl
find_timer-above n (entry ∷ rest) (less, once, below) =
    rw (other_address entry.0 n (λ h. omega (arith, h, less))) (find_timer-above n rest below)

AllBelow-suc : (n : ℕ) (timers : List (ℕ × TimerData)) → AllBelow n timers → AllBelow (n + 1) timers
AllBelow-suc n [] below = tt
AllBelow-suc n (entry ∷ rest) (less, once, below) = (omega arith, once, AllBelow-suc n rest below)

erase_timer-gone :
    (n id : ℕ) (timers : List (ℕ × TimerData))
    → AllBelow n timers
    → find_timer id (erase_timer id timers) ≡ none
unfolding find_timer erase_timer
erase_timer-gone n id [] below = refl
erase_timer-gone n id (entry ∷ rest) (less, once, below) = elim (Bool-cases (entry.0 == id)) [
  | inl same ↦ rw (same) (ap (λ i. find_timer i rest) (sym ((==_iff entry.0 id).0 same)) ∙ once)
  | inr differs ↦ rw (differs, differs) (erase_timer-gone n id rest below)
]

erase_timer-other :
    (i j : ℕ) (timers : List (ℕ × TimerData))
    → i ≢ j
    → find_timer j (erase_timer i timers) ≡ find_timer j timers
unfolding find_timer erase_timer
erase_timer-other i j [] h = refl
erase_timer-other i j (entry ∷ rest) h = elim (Bool-cases (entry.0 == i)) [
  | inl same ↦
      rw (same, other_address entry.0 j (λ e. h (sym ((==_iff entry.0 i).0 same) ∙ e))) refl
  | inr differs ↦ elim (Bool-cases (entry.0 == j)) [
    | inl here ↦ rw (differs, here)
    | inr elsewhere ↦ rw (differs, elsewhere) (erase_timer-other i j rest h)
  ]
]

erase_timer-AllBelow :
    (n id : ℕ) (timers : List (ℕ × TimerData))
    → AllBelow n timers
    → AllBelow n (erase_timer id timers)
unfolding erase_timer
erase_timer-AllBelow n id [] below = tt
erase_timer-AllBelow n id (entry ∷ rest) (less, once, below) = elim (Bool-cases (entry.0 == id)) [
  | inl same ↦ rw (same) below
  | inr differs ↦ rw (differs) (
    less,
    erase_timer-other id entry.0 rest (λ e. apart entry.0 id (sym e) differs) ∙ once,
    erase_timer-AllBelow n id rest below,
  )
]
  where
    apart : (i j : ℕ) → i ≡ j → (i == j) ≡ false → ⊥
    apart i j e h = cc ((==_iff i j).1 e, h)

abbrev new_timer : ℕ → ℕ → TimerData
new_timer wake_up period = record {
  timer_type = type_for period;
  wake_up_millis = wake_up;
  period_millis = period;
}

-- A new timer is in the map under the next id, and the others are as they were; or libuv failed, and the map
-- is as it was. The id is not given out again.
abbrev pub Starts : ℕ → ℕ → DataLoopListener → Out DataLoopListener ℕ → Type 0
Starts wake_up period s out =
    (t : DataLoopListener) × IsFresh t
    × (t.next_timer_id ≡ s.next_timer_id + 1)
    × (((out ≡ ok s.next_timer_id t)
          × (find_timer s.next_timer_id t.timer_map ≡ some (new_timer wake_up period))
          × ((j : ℕ) → j ≢ s.next_timer_id → find_timer j t.timer_map ≡ find_timer j s.timer_map))
        ⊎ ((out ≡ err e_system_failure t) × (t.timer_map ≡ s.timer_map)))

-- While fewer than 2^64 timers were started, and each entry of the map has an id of its own that was given out,
-- starting a timer never finds its id in use: the timer is in the map under the next id, one-shot
-- exactly if its period is zero, and the others are as they were; or libuv failed, and the map is as it
-- was. Each entry has an id of its own that was given out afterwards, too.
pub start_loop_timer-IsFresh :
    (init started : Bool) (wake_up period : ℕ) (s : DataLoopListener)
    → IsFresh s
    → s.next_timer_id + 1 < u64_mod
    → Starts wake_up period s (start_loop_timer init started wake_up period s)
unfolding start_loop_timer
start_loop_timer-IsFresh init started wake_up period s fresh counts = choose init started
  where
    id : ℕ
    id = s.next_timer_id

    next : add64 id 1 ≡ id + 1
    next = omega (arith, counts)

    unused : find_timer id s.timer_map ≡ none
    unused = find_timer-above id s.timer_map fresh

    still : AllBelow (add64 id 1) s.timer_map
    still = subst (λ n. AllBelow n s.timer_map) (sym next) (AllBelow-suc id s.timer_map fresh)

    others :
        (j : ℕ)
        → j ≢ id
        → find_timer j ((id, new_timer wake_up period) ∷ s.timer_map) ≡ find_timer j s.timer_map
    others j h = unfold find_timer in rw (other_address id j (λ e. h (sym e)))

    found :
        find_timer id ((id, new_timer wake_up period) ∷ s.timer_map)
        ≡ some (new_timer wake_up period)
    found = unfold find_timer in rw (==_self id)

    choose : (a b : Bool) → Starts wake_up period s (start_loop_timer a b wake_up period s)
    choose false b = (
      record s { next_timer_id = add64 id 1 },
      still,
      next,
      inr (rw (unused, start_loop_timer), refl),
    )
    choose true false = (
      record s { next_timer_id = add64 id 1; closing = id ∷ s.closing },
      still,
      next,
      inr (rw (unused, start_loop_timer), refl),
    )
    choose true true = (
      record s {
        next_timer_id = add64 id 1;
        timer_map = (id, new_timer wake_up period) ∷ s.timer_map;
      },
      (omega (arith, next), unused, still),
      next,
      inl (rw (unused, start_loop_timer), found, others),
    )

-- What stopping a timer leads to, for the entry of its id.
abbrev pub Stops :
    Bool → ℕ → DataLoopListener → Option TimerData → Out DataLoopListener (Unit {0}) → Type 0
Stops stopped id s none out = out ≡ err e_not_found s
Stops stopped id s (some t) out =
    ((t.timer_type ≢ tt_periodic) × (out ≡ err e_invalid_argument s))
    ⊎ ((t.timer_type ≡ tt_periodic) × (stopped ≡ false) × (out ≡ err e_system_failure s))
    ⊎ ((t.timer_type ≡ tt_periodic)
        × (stopped ≡ true)
        × (u : DataLoopListener) × (out ≡ ok tt u)
        × IsFresh u
        × (u.closing ≡ id ∷ s.closing)
        × (find_timer id u.timer_map ≡ none)
        × ((j : ℕ) → j ≢ id → find_timer j u.timer_map ≡ find_timer j s.timer_map))

by_type :
    (stopped : Bool) (id : ℕ) (s : DataLoopListener)
    → IsFresh s
    → (t : TimerData) → find_timer id s.timer_map ≡ some t
    → (q : TimerType) → t.timer_type ≡ q
    → Stops stopped id s (some t) (stop_loop_timer stopped id s)
unfolding stop_loop_timer
by_type stopped id s fresh t at tt_none e = inl ((λ h. cc (e, h)), rw (at, stop_loop_timer, e))
by_type stopped id s fresh t at tt_one_shot e = inl ((λ h. cc (e, h)), rw (at, stop_loop_timer, e))
by_type false id s fresh t at tt_periodic e = inr (inl (e, refl, rw (at, stop_loop_timer, e)))
by_type true id s fresh t at tt_periodic e = inr (
    inr (
      e,
      refl,
      record s { timer_map = erase_timer id s.timer_map; closing = id ∷ s.closing },
      rw (at, stop_loop_timer, e),
      erase_timer-AllBelow s.next_timer_id id s.timer_map fresh,
      refl,
      erase_timer-gone s.next_timer_id id s.timer_map fresh,
      (λ j h. erase_timer-other id j s.timer_map (λ i. h (sym i))),
    ))

-- Stopping a timer fails with E_NOT_FOUND if its id is not in the map, with E_INVALID_ARGUMENT if it is not
-- periodic and with E_SYSTEM_FAILURE if libuv fails, and changes nothing then. A periodic timer is closed, and
-- no other changes; its entry, which holds the memory of its handle, is gone while the handle is closing.
pub stop_loop_timer_lem :
    (stopped : Bool) (id : ℕ) (s : DataLoopListener)
    → IsFresh s
    → Stops stopped id s (find_timer id s.timer_map) (stop_loop_timer stopped id s)
unfolding stop_loop_timer
stop_loop_timer_lem stopped id s fresh = choose (find_timer id s.timer_map) refl
  where
    choose :
        (found : Option TimerData)
        → find_timer id s.timer_map ≡ found
        → Stops stopped id s found (stop_loop_timer stopped id s)
    choose none at = rw (at, stop_loop_timer)
    choose (some t) at = by_type stopped id s fresh t at t.timer_type refl
