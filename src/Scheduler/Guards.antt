-- ===== src/Scheduler/Guards.antt =====
-- The premise of a move, which a catch-all clause over the moves cannot name.
use grain.Base.{◌-◌, true, false, List, [], ◌∷◌, ◌≡◌, ◌≢◌, ◌⊎◌}
use grain.Scheduler.{
  Actor, drain_idle, drain_running, drain_stopped, actor_initializing, actor_started,
  actor_stopping, actor_stopped, Pc,
}
use grain.Scheduler.Moves.{
  Move, schedule_won, schedule_lost, loop_ends, loop_goes_on, pop_some, pop_none, not_asked, asked,
  calls_open, calls_done, enter_stop, already_stopped, not_stopped, mail_came, no_mail, call_came,
  stop_started, stop_not_started, stop_again, enter, begin_start, start_again, poison_won,
  poison_lost, count_off_last, count_off_transferred, wake_stop, no_stop, resume, park, parked,
  len_found, len_zero, stop_found, stop_absent, ready_found, ready_absent, dead_letter, drained,
}

abbrev pub Guard : {a b : Actor} {p : Pc} {ps : List Pc} → Move a p b ps → Type 0
Guard {a} (schedule_won _) = a.drain_status ≡ drain_idle
Guard {a} (schedule_lost _) = a.drain_status ≢ drain_idle
Guard {a} (loop_ends _) = a.drain_status ≡ drain_stopped
Guard {a} (loop_goes_on _) = a.drain_status ≢ drain_stopped
Guard {a} (pop_some {c} {rest} _) = a.mail.waiting ≡ c ∷ rest
Guard {a} (pop_none _) = a.mail.waiting ≡ []
Guard {a} (not_asked _) = a.stop_requested ≡ false
Guard {a} (asked _) = a.stop_requested ≡ true
Guard {a} (calls_open _) = a.unfinished_calls ≢ 0
Guard {a} (calls_done _) = a.unfinished_calls ≡ 0
Guard {a} (enter_stop _) = a.permit ≡ true
Guard {a} (already_stopped _) = a.drain_status ≡ drain_stopped
Guard {a} (not_stopped _) = a.drain_status ≢ drain_stopped
Guard {a} (mail_came _) = a.mail.waiting ≢ []
Guard {a} (no_mail _) = a.mail.waiting ≡ []
Guard {a} (call_came _) = a.unfinished_calls ≢ 0
Guard {a} (stop_started _ _) = (a.unfinished_calls ≡ 0) × (a.lifecycle_state ≡ actor_started)
Guard {a} (stop_not_started _ _ _ _) =
    (a.unfinished_calls ≡ 0)
    × (a.lifecycle_state ≢ actor_started)
    × (a.lifecycle_state ≢ actor_stopped)
    × (a.lifecycle_state ≢ actor_stopping)
Guard {a} (stop_again _ _) =
    (a.unfinished_calls ≡ 0)
    × ((a.lifecycle_state ≡ actor_stopped) ⊎ (a.lifecycle_state ≡ actor_stopping))
Guard {a} (enter _) = a.permit ≡ true
Guard {a} (begin_start _) = a.lifecycle_state ≡ actor_initializing
Guard {a} (start_again _) = a.lifecycle_state ≢ actor_initializing
Guard {a} (poison_won _) = a.drain_status ≡ drain_idle
Guard {a} (poison_lost _) = a.drain_status ≢ drain_idle
Guard {a} (count_off_last _) = a.unfinished_calls - 1 ≡ 0
Guard {a} (count_off_transferred _) = a.unfinished_calls - 1 ≢ 0
Guard {a} (wake_stop _) = a.stop_requested ≡ true
Guard {a} (no_stop _) = a.stop_requested ≡ false
Guard {a} (resume _) = a.permit ≡ true
Guard {a} (park _) = a.drain_status ≡ drain_running
Guard {a} (parked _) = a.drain_status ≢ drain_running
Guard {a} (len_found _) = a.mail.waiting ≢ []
Guard {a} (len_zero _) = a.mail.waiting ≡ []
Guard {a} (stop_found _) = a.stop_requested ≡ true
Guard {a} (stop_absent _) = a.stop_requested ≡ false
Guard {a} (ready_found _) = a.unfinished_calls ≡ 0
Guard {a} (ready_absent _) = a.unfinished_calls ≢ 0
Guard {a} (dead_letter {c} {rest} _) = a.mail.waiting ≡ c ∷ rest
Guard {a} (drained _) = a.mail.waiting ≡ []
Guard _ = Unit

pub guard : {a b : Actor} {p : Pc} {ps : List Pc} (mv : Move a p b ps) → Guard mv
guard (schedule_won h0) = h0
guard (schedule_lost h0) = h0
guard (loop_ends h0) = h0
guard (loop_goes_on h0) = h0
guard (pop_some h0) = h0
guard (pop_none h0) = h0
guard (not_asked h0) = h0
guard (asked h0) = h0
guard (calls_open h0) = h0
guard (calls_done h0) = h0
guard (enter_stop h0) = h0
guard (already_stopped h0) = h0
guard (not_stopped h0) = h0
guard (mail_came h0) = h0
guard (no_mail h0) = h0
guard (call_came h0) = h0
guard (stop_started h0 h1) = (h0, h1)
guard (stop_not_started h0 h1 h2 h3) = (h0, h1, h2, h3)
guard (stop_again h0 h1) = (h0, h1)
guard (enter h0) = h0
guard (begin_start h0) = h0
guard (start_again h0) = h0
guard (poison_won h0) = h0
guard (poison_lost h0) = h0
guard (count_off_last h0) = h0
guard (count_off_transferred h0) = h0
guard (wake_stop h0) = h0
guard (no_stop h0) = h0
guard (resume h0) = h0
guard (park h0) = h0
guard (parked h0) = h0
guard (len_found h0) = h0
guard (len_zero h0) = h0
guard (stop_found h0) = h0
guard (stop_absent h0) = h0
guard (ready_found h0) = h0
guard (ready_absent h0) = h0
guard (dead_letter h0) = h0
guard (drained h0) = h0
guard _ = tt
