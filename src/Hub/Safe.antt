-- ===== src/Hub/Safe.antt =====
-- The hub's clients and their channels under any order of events.
use retainer.Prelude.{
  ℕ, zero, suc, ◌+◌, ◌≤◌, ◌≡◌, refl, subst, ◌∙◌, ap, Bool, true, false, not, Option, some, List, [],
  ◌∷◌, ◌++◌, length, ltb, arith, All, All-append, Bool-cases, inl, inr, if◌then◌else◌,
}
use retainer.Hub.{
  Client, Hub, Message, serve, leave, pump, notify, fan_out, send_buffer, broadcast_buffer, new_hub,
  drop, unregister, offer, receive, cons_client, each, at, with_clients, fan, handle, run, register,
  enqueue,
}

-- A client is in the map just while its channel is open, and its buffer is not overfull.
pub record Sound (c : Client) : Type 0 where
  pub in_map : c.closed ≡ not c.registered
  pub bounded : length c.send ≤ send_buffer

pub record SoundHub (h : Hub) : Type 0 where
  pub clients : All Sound h.clients
  pub bounded : length h.broadcast ≤ broadcast_buffer

abbrev pub Safe : {A : Type 0} → (A → Type 0) → Option A → Type 0
Safe {A = A} P o = (a : A) × (o ≡ some a) × P a

-- A branch, chosen by what its test computes to
pub Safe-then :
    {A : Type 0} {P : A → Type 0} (b : Bool) {x : Option A} (y : Option A)
    → b ≡ true
    → Safe P x
    → Safe P (if b then x else y)
Safe-then true y h s = s
Safe-then false y h s = cc

pub Safe-else :
    {A : Type 0} {P : A → Type 0} (b : Bool) (x : Option A) {y : Option A}
    → b ≡ false
    → Safe P y
    → Safe P (if b then x else y)
Safe-else true x h s = cc
Safe-else false x h s = s

length-snoc : (l : List ℕ) (n : ℕ) → length (l ++ n ∷ []) ≡ length l + 1
length-snoc [] n = refl
length-snoc (m ∷ l) n = omega (arith, length-snoc l n)

drop-Safe : (c : Client) → Sound c → c.registered ≡ true → Safe Sound (drop c)
unfolding drop
drop-Safe c s r =
    let unclosed : c.closed ≡ false = s.in_map ∙ ap not r in
    Safe-else c.closed _ unclosed (
      record c { registered = false; closed = true },
      refl,
      record { in_map = refl; bounded = s.bounded },
    )

unregister-Safe : (c : Client) → Sound c → Safe Sound (unregister c)
unfolding unregister
unregister-Safe c s = elim (Bool-cases c.registered) [
  | inl r ↦ Safe-then c.registered _ r (drop-Safe c s r)
  | inr r ↦ Safe-else c.registered _ r (c, refl, s)
]

receive-Safe : (c : Client) → Sound c → Safe Sound (receive c)
unfolding receive
receive-Safe c s = taken c.send refl
  where
    taken : (q : List ℕ) → c.send ≡ q → Safe Sound (receive c)
    taken [] e = rw (receive, e) (c, refl, s)
    taken (seq ∷ later) e =
        rw (receive, e)
          (
            record c { send = later },
            refl,
            record {
              in_map = s.in_map;
              bounded =
                  let b : length (seq ∷ later) ≤ send_buffer =
                    subst (λ q. length q ≤ send_buffer) e s.bounded in
                  omega arith;
            },
          )

pub offer-Safe : (seq : ℕ) (c : Client) → Sound c → Safe Sound (offer seq c)
unfolding offer
offer-Safe seq c s = elim (Bool-cases c.registered) [
  | inl r ↦
      let unclosed : c.closed ≡ false = s.in_map ∙ ap not r in
      elim (Bool-cases (ltb (length c.send) send_buffer)) [
        | inl room ↦ Safe-then c.registered _ r (
            Safe-else c.closed _ unclosed (
              Safe-then _ _ room (
                record c { send = c.send ++ seq ∷ [] },
                refl,
                record {
                  in_map = s.in_map;
                  bounded = let l = length-snoc c.send seq in ground arith;
                },
              )))
        | inr full ↦
            Safe-then c.registered _ r
              (Safe-else c.closed _ unclosed (Safe-else _ _ full (drop-Safe c s r)))
      ]
  | inr r ↦ Safe-else c.registered _ r (c, refl, s)
]

cons-Safe :
    (o : Option Client) (p : Option (List Client))
    → Safe Sound o
    → Safe (All Sound) p
    → Safe (All Sound) (cons_client o p)
unfolding cons_client
cons-Safe o p (c, e, s) (cs, f, ss) = rw (e, f) (c ∷ cs, refl, (s, ss))

module _ (f : Client → Option Client) (keeps : (c : Client) → Sound c → Safe Sound (f c)) where
  pub each-Safe : (cs : List Client) → All Sound cs → Safe (All Sound) (each f cs)
  unfolding each
  each-Safe [] s = ([], refl, tt)
  each-Safe (c ∷ cs) (s, ss) = cons-Safe (f c) (each f cs) (keeps c s) (each-Safe cs ss)

  at-Safe : (i : ℕ) (cs : List Client) → All Sound cs → Safe (All Sound) (at i f cs)
  unfolding at
  at-Safe i [] s = ([], refl, tt)
  at-Safe zero (c ∷ cs) (s, ss) = cons-Safe (f c) (some cs) (keeps c s) (cs, refl, ss)
  at-Safe (suc i) (c ∷ cs) (s, ss) = cons-Safe (some c) (at i f cs) (c, refl, s) (at-Safe i cs ss)

with_clients-Safe :
    (pending : List ℕ) (o : Option (List Client))
    → length pending ≤ broadcast_buffer
    → Safe (All Sound) o
    → Safe SoundHub (with_clients pending o)
unfolding with_clients
with_clients-Safe pending o b (cs, e, s) =
    rw e (record { clients = cs; broadcast = pending }, refl, record { clients = s; bounded = b })

fan-Safe :
    (pending : List ℕ) (h : Hub)
    → length pending ≤ broadcast_buffer
    → SoundHub h
    → Safe SoundHub (fan pending h)
unfolding fan
fan-Safe [] h b s = (h, refl, s)
fan-Safe (seq ∷ later) h b s =
    with_clients-Safe later (each (offer seq) h.clients) (omega arith)
      (each-Safe (offer seq) (offer-Safe seq) h.clients s.clients)

pub register-Sound : (h : Hub) → SoundHub h → SoundHub (register h)
unfolding register
register-Sound h s =
    let new : Client = record { registered = true; closed = false; send = [] } in
    record {
      clients =
          All-append Sound h.clients (new ∷ []) s.clients
            (record { in_map = refl; bounded = omega arith }, tt);
      bounded = s.bounded;
    }

pub enqueue-Sound : (seq : ℕ) (h : Hub) → SoundHub h → SoundHub (enqueue seq h)
unfolding enqueue
enqueue-Sound seq h s = elim (Bool-cases (ltb (length h.broadcast) broadcast_buffer)) [
  | inl room ↦ rw room (record {
    clients = s.clients;
    bounded = let l = length-snoc h.broadcast seq in ground arith;
  })
  | inr full ↦ rw full s
]

pub handle-Safe : (m : Message) (h : Hub) → SoundHub h → Safe SoundHub (handle m h)
unfolding handle
handle-Safe serve h s = (register h, refl, register-Sound h s)
handle-Safe (leave i) h s =
    with_clients-Safe h.broadcast (at i unregister h.clients) s.bounded
      (at-Safe unregister unregister-Safe i h.clients s.clients)
handle-Safe (pump i) h s =
    with_clients-Safe h.broadcast (at i receive h.clients) s.bounded
      (at-Safe receive receive-Safe i h.clients s.clients)
handle-Safe (notify seq) h s = (enqueue seq h, refl, enqueue-Sound seq h s)
handle-Safe fan_out h s = fan-Safe h.broadcast h s.bounded s

run-Safe_from : (ms : List Message) (o : Option Hub) → Safe SoundHub o → Safe SoundHub (run ms o)
unfolding run
run-Safe_from [] o (h, e, s) = rw (e, run) (h, refl, s)
run-Safe_from (m ∷ ms) o (h, e, s) = rw (e, run) (run-Safe_from ms (handle m h) (handle-Safe m h s))

pub new_hub-Sound : SoundHub new_hub
new_hub-Sound = record { clients = tt; bounded = omega arith }

-- However connections, their ends, receives by the write pumps, calls of Notify and the hub's
-- events follow one another, the hub never sends on a closed channel nor closes one again; a client
-- is in its map just while its channel is open, and no buffer holds more than its size.
pub run-Sound : (ms : List Message) → (h : Hub) × (run ms (some new_hub) ≡ some h) × SoundHub h
run-Sound ms = run-Safe_from ms (some new_hub) (new_hub, refl, new_hub-Sound)
