-- ===== src/Lifecycle/Closing.antt =====
-- Callers of `stop` one after the other: what `stopLock` guards.
use transflect.Base.{ℕ, ◌≡◌, refl, ◌≢◌, Bool, true, false, some, arith, nat_eq}
use transflect.Lifecycle.{
  closed, Caller, looks, checks, awaits, State, Step, make, ask, enter, already, go_on, close,
  close_closed, skip, waited, Reach, here, later, init,
}

-- Between the `Lock` and the `Unlock` of `stopLock`.
abbrev pub is_inside : Caller → Bool
is_inside looks = true
is_inside checks = true
is_inside awaits = true
is_inside _ = false

pub record Guarded (s : State) : Type 0 where
  pub held : (i : ℕ) → is_inside (s.caller i) ≡ true → s.holder ≡ some i
  pub unclosed : (i : ℕ) → s.caller i ≡ checks → s.stopper ≢ closed
  pub alive : s.crashed ≡ false

module _ {s : State} (g : Guarded s) where
  open g use {held, unclosed, alive}

  Step-held : {t : State} → Step s t → (j : ℕ) → is_inside (t.caller j) ≡ true → t.holder ≡ some j
  Step-held (enter i at free) j h = ground (arith, held j)
  Step-held (already i at e) j h = ground (arith, held j, held i)
  Step-held (waited i at e) j h = ground (arith, held j, held i)
  Step-held (ask i at) j h = ground (arith, held j)
  Step-held (go_on i at e) j h = ground (arith, held j, held i)
  Step-held (close i at e) j h = ground (arith, held j, held i)
  Step-held (skip i at e) j h = ground (arith, held j, held i)
  Step-held st j h = ground (arith, held j)

  Step-unclosed : {t : State} → Step s t → (j : ℕ) → t.caller j ≡ checks → t.stopper ≢ closed
  Step-unclosed (close i at e) j h q = ground (arith, held j, held i)
  Step-unclosed (go_on i at e) j h q = ground (arith, e q, unclosed j)
  Step-unclosed (make e) j h q = cc
  Step-unclosed st j h q = ground (arith, unclosed j)

  Step-alive : {t : State} → Step s t → t.crashed ≡ false
  Step-alive (close_closed i at e) = absurd (unclosed i at e)
  Step-alive st = ground arith

pub Step-Guarded : {s t : State} → Step s t → Guarded s → Guarded t
Step-Guarded st g = record {
  held = Step-held g st;
  unclosed = Step-unclosed g st;
  alive = Step-alive g st;
}

pub init-Guarded : Guarded init
init-Guarded = record { held = λ i h. cc; unclosed = λ i h. cc; alive = refl }

pub Reach-Guarded : {s t : State} → Guarded s → Reach s t → Guarded t
Reach-Guarded g here = g
Reach-Guarded g (later r st) = Step-Guarded st (Reach-Guarded g r)

-- Whatever the order in which any number of callers and the start itself take their steps, no two
-- callers are at once between the `Lock` and the `Unlock` of `stop`, and the channel is never closed
-- twice, which would end the process.
pub stop_safe :
    {s : State}
    → Reach init s
    → ((i j : ℕ) → is_inside (s.caller i) ≡ true → is_inside (s.caller j) ≡ true → i ≡ j)
      × (s.crashed ≡ false)
stop_safe r =
    let g = Reach-Guarded init-Guarded r in (λ i j h k. ground (arith, g.held i, g.held j), g.alive)
