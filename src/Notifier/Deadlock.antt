-- ===== src/Notifier/Deadlock.antt =====
-- When the two goroutines of a size notifier wait for each other.
use g_da_client.Common.{ℕ, zero, suc, ◌≤◌, Bool, true, false, ◌≡◌, ◌↔◌, refl, arith, ◌⊎◌, inl, inr}
use g_da_client.Notifier.{
  Sender, running, waiting, Receiver, selecting, resetting, Notifier, new_notifier, Step, reach,
  send, tick, notified, reset, Steps, stay, next, IsStuck, IsNotTick, IsNotified, capacity,
}

-- The sender waits for room on the channel, and the batcher for the mutex that the sender holds.
abbrev pub IsDeadlock : Notifier → Type 0
IsDeadlock s = (s.sender ≡ waiting) × (s.receiver ≡ resetting) × (capacity ≤ s.queued)

abbrev pub at : ℕ → Bool → Sender → Receiver → Notifier
at n a s r = record { queued = n; active = a; sender = s; receiver = r }

-- Whatever its state, a notifier has a step, or is in the deadlock.
moves :
    (n : ℕ) (a : Bool) (s : Sender) (r : Receiver)
    → ((t : Notifier) × Step (at n a s r) t) ⊎ IsDeadlock (at n a s r)
moves n a s selecting = inl (at n a s resetting, tick)
moves n a running resetting = inl (at n true running selecting, reset)
moves zero a waiting resetting = inl (at 1 false running resetting, send (omega arith))
moves (suc n) a waiting resetting = inr (refl, refl, omega arith)

IsDeadlock-IsStuck : {s t : Notifier} → Step s t → ¬ IsDeadlock s
IsDeadlock-IsStuck reach h = ground arith
IsDeadlock-IsStuck (send room) h = ground arith
IsDeadlock-IsStuck tick h = ground arith
IsDeadlock-IsStuck notified h = ground arith
IsDeadlock-IsStuck reset h = ground arith

-- The goroutines are stuck exactly when the sender waits for room on the channel while the batcher
-- waits for the mutex that the sender holds.
IsStuck-iff : (s : Notifier) → IsStuck s ↔ IsDeadlock s
IsStuck-iff s = (
  λ h. elim (moves s.queued s.active s.sender s.receiver) [
    | inl (t, step) ↦ absurd (h t step)
    | inr d ↦ d
  ],
  λ d t step. IsDeadlock-IsStuck step d,
)

full_reach : (a : Bool) → Steps (at 1 a running selecting) (at 1 true waiting resetting)
full_reach a = next tick (next reset (next reach (next tick stay)))

-- Wherever both goroutines are at rest, there is a run, by way of the ticker, into a state where
-- they are stuck.
pub deadlock_reachable :
    (n : ℕ) (a : Bool)
    → n ≤ capacity
    → (t : Notifier) × Steps (at n a running selecting) t × IsStuck t
deadlock_reachable zero a h = (
  at 1 true waiting resetting,
  next tick (next reset (next reach (next (send (omega arith)) (full_reach false)))),
  (IsStuck-iff _).1 (refl, refl, omega arith),
)
deadlock_reachable (suc zero) a h =
    (at 1 true waiting resetting, full_reach a, (IsStuck-iff _).1 (refl, refl, omega arith))
deadlock_reachable (suc (suc n)) a h = absurd (omega arith)

-- While the notifier is active or the sender waits, the channel is empty and nothing is to be reset.
abbrev IsPaced : Notifier → Type 0
IsPaced s =
    (s.active ≡ true → (s.queued ≡ 0) × (s.receiver ≡ selecting))
    × (s.sender ≡ waiting → s.active ≡ true)
    × (s.queued ≤ 1)
    × (s.receiver ≡ resetting → s.queued ≡ 0)

Step-IsPaced : {s t : Notifier} (step : Step s t) → IsNotTick step → IsPaced s → IsPaced t
Step-IsPaced reach n h = ground arith
Step-IsPaced (send room) n h = ground arith
Step-IsPaced tick n h = absurd n
Step-IsPaced notified n h = ground arith
Step-IsPaced reset n h = ground arith

Steps-IsPaced : {s t : Notifier} (run : Steps s t) → IsNotified run → IsPaced s → IsPaced t
Steps-IsPaced stay n h = h
Steps-IsPaced (next step rest) n h = Steps-IsPaced rest n.1 (Step-IsPaced step n.0 h)

-- If the batcher is woken by the channel only, the goroutines are never stuck.
pub notified-not-IsStuck :
    {t : Notifier} (run : Steps new_notifier t) → IsNotified run → ¬ IsStuck t
notified-not-IsStuck {t} run n stuck =
    let paced = Steps-IsPaced run n (ground arith) in
    let dead = (IsStuck-iff t).0 stuck in ground arith
