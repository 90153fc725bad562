-- ===== src/Stop/Tests.antt =====
-- A stop with one actor that takes its time, a start that fails, and the theorems there.
use grain.Base.{ℕ, zero, suc, ◌≡◌, ◌⊎◌, refl, true, false, some, List, [], ◌∷◌, All, arith}
use grain.Stop.{Resources, Calls, Process, Drain, stop_actors_impl, stop_actors, wait_stop_signal}
use grain.Stop.Lease.{keeps_lease, wait_stop_signal-ends, lease_kept}

abbrev actor : Process
actor = record { id = 7; poison_first_on_quit = some true }

-- It is there at the first look, and gone at the next one.
abbrev look : ℕ → List Process
look zero = actor ∷ []
look (suc k) = []

-- A second passes between two looks.
abbrev time : ℕ → ℕ
time k = k

abbrev held : Resources
held = record { cancel_func = true; client = true; lease_id = 5 }

wait_stop_signal-ends_example : (d : Drain) × (wait_stop_signal look time 10 11 true held ≡ some d)
wait_stop_signal-ends_example = wait_stop_signal-ends look time 10 10 true held (λ k. omega arith)

-- what that stop ends with
ends : (d : Drain) × (wait_stop_signal look time 10 11 true held ≡ some d)
unfolding wait_stop_signal stop_actors stop_actors_impl
ends = (_, refl)

lease_kept_example : (look ends.0.last_look ≡ []) ⊎ All (λ e. keeps_lease e ≡ true) ends.0.effects
lease_kept_example = lease_kept look time 10 11 true held ends.0 ends.1

-- The members cannot be loaded.
abbrev calls : Calls
calls = record {
  new_client = true;
  grant = some 5;
  keep_alive = true;
  load_members = false;
  register = true;
  watch_members = true;
}
