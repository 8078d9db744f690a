-- ===== src/Signal.antt =====
-- ohmyraft/TimeTravelSignal.H. `signal` and `wait` run under `miniLock`, so `signal` is one step; `wait` is
-- two, since it gives the lock up while it blocks on the condition variable. `reset` takes no lock; it is
-- modelled where no other call runs at the same time.
pub mod Delivery
use oh_my_db.Prelude.{Bool, true, false, if◌then◌else◌}

pub record TimeTravelSignal : Type 0 where
  pub no_block : Bool  -- sender is fast
  pub waiting : Bool  -- receiver is fast

-- What the caller sees of `cvar`: `notify_all` was called or not.
pub data Notice : Type 0 where
  silent notified : Notice

-- How `wait` goes on: it returns at once, it blocks on `cvar`, or it logs an error and returns.
pub data WaitOutcome : Type 0 where
  returned blocked misused : WaitOutcome

abbrev pub idle : TimeTravelSignal
idle = record { no_block = false; waiting = false }

pub reset : TimeTravelSignal → TimeTravelSignal × Notice
reset s = (record { no_block = false; waiting = false }, notified)

unfoldable pub signal : TimeTravelSignal → TimeTravelSignal × Notice
signal s =
    if s.no_block
    then (s, silent)
    else if s.waiting
    then (record s { waiting = false }, notified)
    else (record s { no_block = true }, silent)

unfoldable pub wait : TimeTravelSignal → TimeTravelSignal × WaitOutcome
wait s =
    if s.waiting
    then (s, misused)
    else if s.no_block
    then (record s { no_block = false }, returned)
    else (record s { waiting = true }, blocked)
