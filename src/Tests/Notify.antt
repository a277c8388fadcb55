-- ===== src/Tests/Notify.antt =====
-- A size notifier on concrete runs.
use g_da_client.Common.{true, arith}
use g_da_client.Notifier.{
  Notifier, new_notifier, waiting, resetting, Steps, stay, next, reach, send, notified, reset,
  IsStuck,
}
use g_da_client.Notifier.Deadlock.{at, deadlock_reachable, notified-not-IsStuck}

abbrev stuck : Notifier
stuck = at 1 true waiting resetting

deadlock_reachable_example : (t : Notifier) × Steps new_notifier t × IsStuck t
deadlock_reachable_example = deadlock_reachable 0 true (omega arith)

abbrev after_reset : Notifier
after_reset = new_notifier

-- A value is sent and received, and the notifier is active again.
abbrev round : Steps new_notifier after_reset
round = next reach (next (send (omega arith)) (next notified (next reset stay)))

notified-not-IsStuck_example : ¬ IsStuck after_reset
notified-not-IsStuck_example = notified-not-IsStuck round (tt, (tt, (tt, (tt, tt))))
