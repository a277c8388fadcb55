-- ===== src/Notifier.antt =====
-- disperser/batcher/encoding_streamer.go and batcher.go: the notifier of the encoded size
-- (`EncodedSizeNotifier`). The signer's notifier has the same mutex and channel, but its receiver may
-- return without making it active again, under one more mutex, and is not modelled. A sender that reaches
-- the threshold takes the notifier's mutex and, if the notifier is active, sends on a channel of
-- capacity 1 with the mutex held; the batcher waits for its ticker or the channel, and then takes
-- the same mutex to make the notifier active again.
pub mod Deadlock
use g_da_client.Common.{ℕ, suc, Bool, true, false, ◌<◌}

-- `waiting` holds the mutex and is at the send.
pub data Sender : Type 0 where
  running waiting : Sender

-- `resetting` is about to take the mutex in `CreateBatch`.
pub data Receiver : Type 0 where
  selecting resetting : Receiver

-- `queued` is what the channel holds.
pub record Notifier : Type 0 where
  pub queued : ℕ
  pub active : Bool
  pub sender : Sender
  pub receiver : Receiver

-- `make(chan struct{}, 1)`
abbrev pub capacity : ℕ
capacity = 1

-- `NewEncodedSizeNotifier`, and both goroutines at their start.
abbrev pub new_notifier : Notifier
new_notifier = record { queued = 0; active = true; sender = running; receiver = selecting }

pub data Step : Notifier → Notifier → Type 0 where
  -- the threshold is reached and the notifier is active: the mutex is taken
  reach :
      {n : ℕ} {r : Receiver}
      → Step
          (record { queued = n; active = true; sender = running; receiver = r })
          (record { queued = n; active = true; sender = waiting; receiver = r })
  -- the channel has room: the value is sent, the notifier is inactive, the mutex is released
  send :
      {n : ℕ} {a : Bool} {r : Receiver}
      → n < capacity
      → Step
          (record { queued = n; active = a; sender = waiting; receiver = r })
          (record { queued = suc n; active = false; sender = running; receiver = r })
  -- `<-ticker.C`
  tick :
      {n : ℕ} {a : Bool} {s : Sender}
      → Step
          (record { queued = n; active = a; sender = s; receiver = selecting })
          (record { queued = n; active = a; sender = s; receiver = resetting })
  -- `<-Notify`
  notified :
      {n : ℕ} {a : Bool} {s : Sender}
      → Step
          (record { queued = suc n; active = a; sender = s; receiver = selecting })
          (record { queued = n; active = a; sender = s; receiver = resetting })
  -- the mutex is free: the notifier is active again
  reset :
      {n : ℕ} {a : Bool}
      → Step
          (record { queued = n; active = a; sender = running; receiver = resetting })
          (record { queued = n; active = true; sender = running; receiver = selecting })

pub data Steps : Notifier → Notifier → Type 0 where
  stay : {s : Notifier} → Steps s s
  next : {s t u : Notifier} → Step s t → Steps t u → Steps s u

-- Neither goroutine can go on.
abbrev pub IsStuck : Notifier → Type 0
IsStuck s = (t : Notifier) → ¬ Step s t

-- A step that is not the ticker's.
abbrev pub IsNotTick : {s t : Notifier} → Step s t → Type 0
IsNotTick tick = ⊥
IsNotTick _ = Unit

-- A run in which the batcher is woken by the channel only.
abbrev pub IsNotified : {s t : Notifier} → Steps s t → Type 0
IsNotified stay = Unit
IsNotified (next step rest) = IsNotTick step × IsNotified rest
