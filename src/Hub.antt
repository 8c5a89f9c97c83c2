-- ===== src/Hub.antt =====
-- The event hub: server/internal/wsserver/hub.go, and what client.go does to it. `none` is a
-- panic: a send on a closed channel, or a second close.
pub mod Safe
pub mod Delivery
mod Tests
use retainer.Prelude.{
  ℕ, zero, suc, ◌+◌, Bool, true, false, Option, none, some, List, [], ◌∷◌, ◌++◌, length, ltb,
  if◌then◌else◌,
}

-- The buffers of `send` and `broadcast`
abbrev pub send_buffer : ℕ
send_buffer = 8

abbrev pub broadcast_buffer : ℕ
broadcast_buffer = 16

-- A `Client` that was made: whether it is in the hub's map, whether its `send` is closed, and the
-- events in its `send`, each by its `serverSeq`.
pub record Client : Type 0 where
  pub registered : Bool
  pub closed : Bool
  pub send : List ℕ

-- A pointer to a client is its place in `clients`.
pub record Hub : Type 0 where
  pub clients : List Client
  pub broadcast : List ℕ

-- `NewHub`
abbrev pub new_hub : Hub
new_hub = record { clients = []; broadcast = [] }

-- `close(c.send)` behind `delete(h.clients, c)`
unfoldable pub drop : Client → Option Client
drop c = if c.closed then none else some (record c { registered = false; closed = true })

-- The case of `h.unregister`
unfoldable pub unregister : Client → Option Client
unfolding drop
unregister c = if c.registered then drop c else some c

-- One round of the broadcasting loop: a client whose buffer is full is dropped.
unfoldable pub offer : ℕ → Client → Option Client
unfolding drop
offer seq c =
    if c.registered
    then if c.closed
      then none
      else if ltb (length c.send) send_buffer
      then some (record c { send = c.send ++ seq ∷ [] })
      else drop c
    else some c

-- What `writePump` takes from `send`
unfoldable pub receive : Client → Option Client
receive c = elim c.send [ [] ↦ some c | seq ∷ later ↦ some (record c { send = later }) ]

unfoldable pub cons_client : Option Client → Option (List Client) → Option (List Client)
cons_client none rest = none
cons_client (some c) none = none
cons_client (some c) (some cs) = some (c ∷ cs)

-- The loop over the clients
unfoldable pub each : (Client → Option Client) → List Client → Option (List Client)
unfolding cons_client
each f [] = some []
each f (c ∷ cs) = cons_client (f c) (each f cs)

-- One client, through its pointer
unfoldable pub at : ℕ → (Client → Option Client) → List Client → Option (List Client)
unfolding cons_client
at i f [] = some []
at zero f (c ∷ cs) = cons_client (f c) (some cs)
at (suc i) f (c ∷ cs) = cons_client (some c) (at i f cs)

unfoldable pub with_clients : List ℕ → Option (List Client) → Option Hub
with_clients pending none = none
with_clients pending (some cs) = some (record { clients = cs; broadcast = pending })

-- `serve` is a new connection, `leave` its end, `pump` a receive by its writePump, `notify` a call of
-- `Notify` with its `serverSeq`, and `fan_out` the hub's taking of an event.
pub data Message : Type 0 where
  serve : Message
  leave : ℕ → Message
  pump : ℕ → Message
  notify : ℕ → Message
  fan_out : Message

-- The case of `h.broadcast`, where there is an event to take
unfoldable pub fan : List ℕ → Hub → Option Hub
unfolding offer each with_clients
fan [] h = some h
fan (seq ∷ later) h = with_clients later (each (offer seq) h.clients)

-- The case of `h.register`
unfoldable pub register : Hub → Hub
register h = record h {
  clients = h.clients ++ record { registered = true; closed = false; send = [] } ∷ [];
}

-- `Notify`: an event is dropped where the buffer is full.
unfoldable pub enqueue : ℕ → Hub → Hub
enqueue seq h =
    if ltb (length h.broadcast) broadcast_buffer
    then record h { broadcast = h.broadcast ++ seq ∷ [] }
    else h

unfoldable pub handle : Message → Hub → Option Hub
unfolding unregister receive at with_clients fan register enqueue
handle serve h = some (register h)
handle (leave i) h = with_clients h.broadcast (at i unregister h.clients)
handle (pump i) h = with_clients h.broadcast (at i receive h.clients)
handle (notify seq) h = some (enqueue seq h)
handle fan_out h = fan h.broadcast h

-- Any interleaving of what the goroutines do
unfoldable pub run : List Message → Option Hub → Option Hub
run ms none = none
run [] (some h) = some h
run (m ∷ ms) (some h) = run ms (handle m h)
