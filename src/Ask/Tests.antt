-- ===== src/Ask/Tests.antt =====
-- An Ask that is woken by the shutdown, one that gets its reply, and the theorems there.
use grain.Base.{◌<◌, ◌≢◌, refl, none, List, [], ◌∷◌, ◌++◌}
use grain.Ask.{Asks, Pc}
use grain.Ask.Moves.{
  Move, System, move, ask, reply, begin_stop, Reach, fresh, later, register, send, receive, cancel,
  pop, deliver, close, collect, collected, wake, woken,
}
use grain.Ask.Inv.{sent}
use grain.Ask.Shutdown.{asks_wake, received-sent}

-- the first goroutine of the list moves
front :
    {s t : Asks} {p : Pc} {ps ts : List Pc}
    → Reach (record { asks = s; threads = p ∷ ts })
    → Move s p t ps
    → Reach (record { asks = t; threads = ps ++ ts })
front {ts = ts} r mv = later r (move [] ts refl mv)

abbrev Run : Type 0
Run = (x : System) × Reach x

-- Ask 0 waits for its reply.
abbrev waiting : Run
waiting =
    let r0 = later fresh ask in let r1 = front r0 register in let r2 = front r1 send in (_, r2)

-- The system stops, and fills the channel.
abbrev stopped : Run
stopped =
    let r0 = later waiting.1 begin_stop in
    let r1 = front r0 close in
    let r2 = front r1 collect in
    let r3 = front r2 collected in let r4 = front r3 wake in let r5 = front r4 woken in (_, r5)

asks_wake_example : stopped.0.asks.channel 0 ≢ none
asks_wake_example = asks_wake 0 [] [] stopped.1 refl (refl, tt) refl

-- The reply 7 comes in, and the Ask is about to end with it.
abbrev answered : Run
answered =
    let r0 = later waiting.1 (reply 0 7) in
    let r1 = front r0 pop in
    let r2 = front r1 deliver in let r3 = front r2 (receive refl) in (_, r3)

received-sent_example : 0 < sent 0 7 answered.0.asks.replies
received-sent_example = received-sent 0 7 [] [] answered.1 refl

abbrev over : Run
over = let r1 = front answered.1 cancel in (_, r1)
