-- ===== src/Signal/Delivery.antt =====
-- The interleavings of one sender and one receiver of ohmyraft/TimeTravelSignal.H. `cvar.wait` has no
-- predicate, so it may also return when nobody has notified it.
use oh_my_db.Prelude.{
  ℕ, ◌+◌, ◌≡◌, ◌⊎◌, inl, inr, Bool-cases, Bool, true, false, ◌&&◌, not, List, [], ◌∷◌, arith,
  if◌then◌else◌,
}
use oh_my_db.Signal.{
  TimeTravelSignal, Notice, silent, notified, WaitOutcome, returned, blocked, misused, idle, signal,
  wait,
}

-- The receiver's thread: at work, or blocked in `cvar.wait`.
pub record Channel : Type 0 where
  pub flags : TimeTravelSignal
  pub asleep : Bool
  pub wakeups : ℕ  -- how often `wait` has returned

abbrev pub start : Channel
start = record { flags = idle; asleep = false; wakeups = 0 }

-- A call of the sender, a call of the receiver, and a spurious wakeup.
pub data Action : Type 0 where
  send receive wake : Action

-- A blocked receiver takes no step of its own: it goes on when `cvar` is notified.
deliver : Channel → TimeTravelSignal × Notice → Channel
deliver c (f, silent) = record c { flags = f }
deliver c (f, notified) =
    if c.asleep
    then record { flags = f; asleep = false; wakeups = c.wakeups + 1 }
    else record c { flags = f }

settle : Channel → TimeTravelSignal × WaitOutcome → Channel
settle c (f, returned) = record c { flags = f; wakeups = c.wakeups + 1 }
settle c (f, blocked) = record c { flags = f; asleep = true }
settle c (f, misused) = record c { flags = f; wakeups = c.wakeups + 1 }

pub act : Action → Channel → Channel
unfolding signal wait deliver settle
act send c = deliver c (signal c.flags)
act receive c = if c.asleep then c else settle c (wait c.flags)
act wake c = if c.asleep then record c { asleep = false; wakeups = c.wakeups + 1 } else c

pub run : List Action → Channel → Channel
run [] c = c
run (a ∷ as') c = run as' (act a c)

-- Where the receiver sleeps, the flags say so, and then no signal is stored.
pub record IsCoherent (c : Channel) : Type 0 where
  pub sleeper : c.asleep ≡ true → c.flags.waiting ≡ true
  pub exclusive : c.flags.waiting ≡ true → c.flags.no_block ≡ false

act-IsCoherent : (a : Action) (c : Channel) → IsCoherent c → IsCoherent (act a c)
unfolding act
act-IsCoherent send c h = record {
  sleeper = ground (arith, h.sleeper, h.exclusive);
  exclusive = ground (arith, h.sleeper, h.exclusive);
}
act-IsCoherent receive c h = record {
  sleeper = ground (arith, h.sleeper, h.exclusive);
  exclusive = ground (arith, h.sleeper, h.exclusive);
}
act-IsCoherent wake c h = record {
  sleeper = ground (arith, h.sleeper, h.exclusive);
  exclusive = ground (arith, h.sleeper, h.exclusive);
}

-- After any interleaving of sends, waits and spurious wakeups no receiver sleeps on a stored signal.
pub run-IsCoherent : (as' : List Action) (c : Channel) → IsCoherent c → IsCoherent (run as' c)
unfolding run
run-IsCoherent [] c h = h
run-IsCoherent (a ∷ as') c h = run-IsCoherent as' (act a c) (act-IsCoherent a c h)

-- The receiver has woken up by itself, and the flags still say that it waits.
abbrev pub is_stale : Channel → Bool
is_stale c = c.flags.waiting && not c.asleep

-- A send is consumed once: it wakes the blocked receiver, or the next `wait` returns at once, and the
-- `wait` after that blocks.
abbrev pub Consumed : Channel → Type 0
Consumed c =
    let d = act send c in
    let e = if c.asleep then d else act receive d in
    (e.wakeups ≡ c.wakeups + 1) × (e.asleep ≡ false) × ((act receive e).asleep ≡ true)

-- A send is lost: it wakes nobody, and the next `wait` blocks.
abbrev pub Lost : Channel → Type 0
Lost c =
    let d = act send c in
    (d.wakeups ≡ c.wakeups) × (d.asleep ≡ false) × ((act receive d).asleep ≡ true)

lost : (c : Channel) → IsCoherent c → is_stale c ≡ true → Lost c
unfolding act
lost c h e = ground (arith, h.exclusive)

consumed : (c : Channel) → IsCoherent c → is_stale c ≡ false → Consumed c
unfolding act
consumed c h e = ground (arith, h.sleeper, h.exclusive)

next_send :
    (c : Channel)
    → IsCoherent c
    → ((is_stale c ≡ true) × Lost c) ⊎ ((is_stale c ≡ false) × Consumed c)
next_send c h = elim (Bool-cases (is_stale c)) [
  | inl e ↦ inl (e, lost c h e)
  | inr e ↦ inr (e, consumed c h e)
]

-- After any interleaving of sends, waits and spurious wakeups from a coherent channel, the next send is
-- consumed once: either it wakes the blocked receiver, or the next `wait` returns at once, and the `wait`
-- after that blocks; unless the receiver has woken up spuriously and the flags still say that it waits: then
-- the send is lost, it wakes nobody and the next `wait` blocks.
pub send_wakes_once :
    (as' : List Action) (c : Channel)
    → IsCoherent c
    → let d = run as' c in ((is_stale d ≡ true) × Lost d) ⊎ ((is_stale d ≡ false) × Consumed d)
send_wakes_once as' c h = next_send (run as' c) (run-IsCoherent as' c h)
