-- ===== src/Uuid/Tests.antt =====
-- Runs of the id generator, and the results at concrete inputs.
use grain.Base.{ℕ, ◌+◌, ◌≡◌, refl, none, some, List, [], ◌∷◌, length, arith}
use grain.Base.Int.{pos}
use grain.Uuid.{Uuid, epoch, new_uuid, finish, generate, generate_many}
use grain.Uuid.Stream.{Ticks, AscendFrom, ids_ascend}

-- a clock that shows a new millisecond with every reading
abbrev every : ℕ → ℕ
every k = k

every-Ticks : Ticks 0 every
every-Ticks = record { steady = λ k. omega arith; ticks = λ k. omega arith }

abbrev node_5 : Uuid
node_5 = record { timestamp = 0; node = 5; step = 0; base_wall = epoch + 7 }

started : new_uuid 5 (pos (epoch + 7)) ≡ some node_5
unfolding new_uuid
started = refl

refused : new_uuid 1024 (pos epoch) ≡ none
unfolding new_uuid
refused = refl

-- the wall clock before the epoch
early : new_uuid 5 (pos 3) ≡ some (record node_5 { base_wall = epoch })
unfolding new_uuid
early = refl

-- a clock that stands still has the second id one step on
still : generate_many (λ k. 0) 3 2 node_5 0 ≡ some (29380608 ∷ 29380609 ∷ [])
unfolding generate_many generate finish
still = refl

ids_ascend_example :
    (ids : List ℕ) × (generate_many every 3 4 node_5 0 ≡ some ids)
    × (length ids ≡ 4)
    × AscendFrom 5 0 ids
ids_ascend_example =
    ids_ascend 0 every every-Ticks 3 4 5 (pos (epoch + 7)) node_5 started (omega arith)
      (omega arith)

-- the same node started again
abbrev restarted : Uuid
restarted = record node_5 { base_wall = epoch + 100 }
