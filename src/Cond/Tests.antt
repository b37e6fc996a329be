-- ===== src/Cond/Tests.antt =====
-- kernel_cc.c with two waiters: the thread of the waiter 7 is awake, that of the waiter 8 sleeps.
use tiny_os_project.Prelude.{◌≡◌, arith, false, some, [], ◌∷◌, ◌==◌, if◌then◌else◌}
use tiny_os_project.Sched.Tests.{three, nobody, three-IsTimed}
use tiny_os_project.Cond.{CondVar, cond_signal, broadcast_loop}
use tiny_os_project.Cond.Signal.{Signalled, cond_signal-Signalled}
use tiny_os_project.Cond.Broadcast.{Released, broadcast_loop-Released}

abbrev two_wait : CondVar
two_wait = record {
  waiters = λ w. record { thread = if w == 8 then 2 else 3; signalled = false; removed = false };
  waitset = 7 ∷ 8 ∷ [];
  sched = three;
}

cond_signal-Signalled_example : Signalled two_wait (7 ∷ 8 ∷ []) (cond_signal two_wait)
cond_signal-Signalled_example = cond_signal-Signalled two_wait

broadcast_loop-Released_example :
    (c' : CondVar) × (broadcast_loop 3 two_wait ≡ some c') × Released nobody two_wait c'
broadcast_loop-Released_example =
    broadcast_loop-Released 3 two_wait (omega arith) three-IsTimed.lists
