-- ===== src/Ask/Reachable.antt =====
-- The invariant holds at the start and is kept by every step of the system.
use grain.Base.{ℕ, ◌+◌, List, ◌∷◌, ◌++◌, ◌≡◌, sym, ap, ◌∙◌, subst, fun_ext, arith}
use grain.Ask.{Asks, Pc, registering, popping, closing}
use grain.Ask.Moves.{Move, System, Step, move, ask, reply, begin_stop, Reach, fresh, later}
use grain.Ask.Inv.{Group, weight, tally, AskOk, ReplyOk}
use grain.Ask.Keep.{before, after, Move-AskOk, Move-ReplyOk, tally-append}

-- the invariant of a system, by the shared state and the number of goroutines in each group
pub record Inv (s : Asks) (g : Group → ℕ) : Type 0 where
  pub asks_ok : (n : ℕ) → AskOk s g n
  pub replies_ok : (n m : ℕ) → ReplyOk s g n m

abbrev pub count_of : List Pc → Group → ℕ
count_of ts w = tally w ts

abbrev rest_of : List Pc → List Pc → Group → ℕ
rest_of xs ys w = tally w xs + tally w ys

split_before : (xs ys : List Pc) (p : Pc) → count_of (xs ++ (p ∷ ys)) ≡ before (rest_of xs ys) p
split_before xs ys p = fun_ext (λ w. omega (arith, tally-append w xs (p ∷ ys)))

split_after : (xs ys ps : List Pc) → count_of (xs ++ (ps ++ ys)) ≡ after (rest_of xs ys) ps
split_after xs ys ps =
    fun_ext (λ w. omega (arith, tally-append w xs (ps ++ ys), tally-append w ps ys))

Inv-move :
    {s t : Asks} {p : Pc} {ps : List Pc} (xs ys ts : List Pc)
    → ts ≡ xs ++ (p ∷ ys)
    → Move s p t ps
    → Inv s (count_of ts)
    → Inv t (count_of (xs ++ (ps ++ ys)))
Inv-move {s} {t} {p} {ps} xs ys ts e mv v =
    let g = rest_of xs ys in
    let was : Inv s (before g p) = subst (Inv s) (ap count_of e ∙ split_before xs ys p) v in
    subst (Inv t) (sym (split_after xs ys ps)) (record {
      asks_ok = Move-AskOk g mv was.asks_ok;
      replies_ok = Move-ReplyOk g mv was.replies_ok;
    })

Inv-ask :
    (s : Asks) (ts : List Pc)
    → Inv s (count_of ts)
    → Inv (record s { next_sn_id = s.next_sn_id + 1 }) (count_of (registering s.next_sn_id ∷ ts))
Inv-ask s ts v = record {
  asks_ok = λ n. ground (arith, v.asks_ok n);
  replies_ok = λ n m. ground (arith, v.replies_ok n m);
}

Inv-reply :
    (s : Asks) (ts : List Pc) (k r : ℕ)
    → Inv s (count_of ts)
    → Inv (record s { replies = (k, r) ∷ s.replies }) (count_of (popping k r ∷ ts))
Inv-reply s ts k r v = record {
  asks_ok = λ n. ground (arith, v.asks_ok n);
  replies_ok = λ n m. ground (arith, v.replies_ok n m);
}

Inv-idle :
    (s : Asks) (ts : List Pc) (p : Pc)
    → ((w : Group) → weight w p ≡ 0)
    → Inv s (count_of ts)
    → Inv s (count_of (p ∷ ts))
Inv-idle s ts p none v = subst (Inv s) (fun_ext (λ w. omega (arith, none w))) v

Step-Inv :
    {x y : System} → Step x y → Inv x.asks (count_of x.threads) → Inv y.asks (count_of y.threads)
Step-Inv {x} (move xs ys e mv) v = Inv-move xs ys x.threads e mv v
Step-Inv {x} ask v = Inv-ask x.asks x.threads v
Step-Inv {x} (reply k r) v = Inv-reply x.asks x.threads k r v
Step-Inv {x} begin_stop v = Inv-idle x.asks x.threads closing (λ w. ground arith) v

pub Reach-Inv : {x : System} → Reach x → Inv x.asks (count_of x.threads)
Reach-Inv fresh = record { asks_ok = λ n. ground arith; replies_ok = λ n m. ground arith }
Reach-Inv (later r st) = Step-Inv st (Reach-Inv r)
