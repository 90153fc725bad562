-- ===== src/StreamWrite/Tests.antt =====
-- A writer whose second send fails, and the theorem there.
use grain.Base.{◌≡◌, true, false, some, List, [], ◌∷◌, map}
use grain.ActorId.{new_direct_actor_ref, default_reply_kind}
use grain.StreamWrite.{Context, Turn, life}
use grain.StreamWrite.Order.{settled, told, to_tell, life_settles}

abbrev context : Context
context = record {
  target = new_direct_actor_ref (107 ∷ []) (97 ∷ []) (110 ∷ []);
  sender = some (new_direct_actor_ref default_reply_kind (55 ∷ []) (109 ∷ []));
  msg_sn_id = 55;
  message = 1;
}

abbrev turns : List Turn
turns =
    record { ctx = context; marshaled = some []; sent = true }
    ∷ record { ctx = context; marshaled = some []; sent = false }
    ∷ []

life_settles_example :
    (settled (life true true turns) ≡ map (λ (t : Turn). t.ctx.message) turns)
    × (told (life true true turns) ≡ to_tell (life true true turns))
life_settles_example = life_settles true true turns
