-- ===== src/Hub/Tests.antt =====
-- A hub with a slow reader, like those of hub_test.go, and a witness.
use retainer.Prelude.{◌≡◌, refl, true, false, some, List, [], ◌∷◌}
use retainer.Hub.{Hub, Message, serve, leave, pump, notify, fan_out, new_hub, handle, run}
use retainer.Hub.Safe.{SoundHub, run-Sound}

-- The second client never reads, its buffer is full at the ninth event, and it leaves after that.
abbrev slow_reader : List Message
slow_reader =
    serve
    ∷ serve
    ∷ notify 1
    ∷ fan_out
    ∷ pump 0
    ∷ notify 2
    ∷ fan_out
    ∷ pump 0
    ∷ notify 3
    ∷ fan_out
    ∷ pump 0
    ∷ notify 4
    ∷ fan_out
    ∷ pump 0
    ∷ notify 5
    ∷ fan_out
    ∷ pump 0
    ∷ notify 6
    ∷ fan_out
    ∷ pump 0
    ∷ notify 7
    ∷ fan_out
    ∷ pump 0
    ∷ notify 8
    ∷ fan_out
    ∷ pump 0
    ∷ notify 9
    ∷ fan_out
    ∷ leave 1
    ∷ []

slow_reader_dropped :
    run slow_reader (some new_hub)
    ≡ some (record {
      clients =
          record { registered = true; closed = false; send = 9 ∷ [] }
          ∷ record { registered = false; closed = true; send = 1 ∷ 2 ∷ 3 ∷ 4 ∷ 5 ∷ 6 ∷ 7 ∷ 8 ∷ [] }
          ∷ [];
      broadcast = [];
    })
unfolding run handle
slow_reader_dropped = refl

run-Sound_example : (h : Hub) × (run slow_reader (some new_hub) ≡ some h) × SoundHub h
run-Sound_example = run-Sound slow_reader
