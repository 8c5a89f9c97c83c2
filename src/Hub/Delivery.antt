-- ===== src/Hub/Delivery.antt =====
-- How an event reaches the clients.
use retainer.Prelude.{
  ℕ, zero, suc, ◌+◌, ◌≤◌, ◌<◌, ◌≡◌, refl, sym, ap, subst, ◌∙◌, Bool, true, false, not, Option, some,
  List, [], ◌∷◌, ◌++◌, append_assoc, append-nil, length, length-append, replicate, get_elem?,
  lt→ltb, arith, All, if◌then◌else◌,
}
use retainer.Schema.Members.{some_injective}
use retainer.Hub.{
  Client, Hub, fan_out, send_buffer, broadcast_buffer, offer, cons_client, each, with_clients, fan,
  enqueue, handle, run,
}
use retainer.Hub.Safe.{Sound, SoundHub, offer-Safe, each-Safe}

-- A client with more in its channel
abbrev pub sent : Client → List ℕ → Client
sent c events = record c { send = c.send ++ events }

if-then : {A : Type 0} (b : Bool) (x y : A) → b ≡ true → (if b then x else y) ≡ x
if-then b x y h = rw h refl

if-else : {A : Type 0} (b : Bool) (x y : A) → b ≡ false → (if b then x else y) ≡ y
if-else b x y h = rw h refl

-- A client that is in the map, and has room, gets the event.
offer-sent :
    (seq : ℕ) (c : Client)
    → Sound c
    → c.registered ≡ true
    → length c.send < send_buffer
    → offer seq c ≡ some (sent c (seq ∷ []))
unfolding offer
offer-sent seq c s r room =
    if-then c.registered _ _ r
    ∙ if-else c.closed _ _ (s.in_map ∙ ap not r)
    ∙ if-then _ _ _ (lt→ltb (length c.send) send_buffer room)

-- One client of a list, and the list
record Reached (i : ℕ) (c : Client) (o : Option (List Client)) : Type 0 where
  clients : List Client
  made : o ≡ some clients
  sound : All Sound clients
  at : get_elem? clients i ≡ some c

each-sent :
    (seq : ℕ) (i : ℕ) (c : Client) (cs : List Client)
    → All Sound cs
    → get_elem? cs i ≡ some c
    → c.registered ≡ true
    → length c.send < send_buffer
    → Reached i (sent c (seq ∷ [])) (each (offer seq) cs)
unfolding each cons_client
each-sent seq i c [] s at r room = cc
each-sent seq zero c (d ∷ cs) (s, ss) at r room =
    let same : d ≡ c = some_injective at in
    let (later, e, sound) = each-Safe (offer seq) (offer-Safe seq) cs ss in
    let first = ap (offer seq) same ∙ offer-sent seq c (subst Sound same s) r room in
    let (d', e', s') = offer-Safe seq d s in
    record {
      clients = sent c (seq ∷ []) ∷ later;
      made = rw (first, e) refl;
      sound = (subst Sound (some_injective (sym e' ∙ first)) s', sound);
      at = refl;
    }
each-sent seq (suc i) c (d ∷ cs) (s, ss) at r room =
    let (d', e, s') = offer-Safe seq d s in
    let rest = each-sent seq i c cs ss at r room in
    record {
      clients = d' ∷ rest.clients;
      made = rw (e, rest.made) refl;
      sound = (s', rest.sound);
      at = rest.at;
    }

-- What the hub's taking of all its pending events leaves
pub record Delivered (i : ℕ) (c : Client) (o : Option Hub) : Type 0 where
  pub hub : Hub
  pub runs : o ≡ some hub
  pub sound : SoundHub hub
  pub pending : hub.broadcast ≡ []
  pub client : get_elem? hub.clients i ≡ some c

sent-sent :
    (c : Client) (seq : ℕ) (later : List ℕ) → sent (sent c (seq ∷ [])) later ≡ sent c (seq ∷ later)
sent-sent c seq later = ap (λ q. record c { send = q }) (append_assoc c.send (seq ∷ []) later)

drain :
    (pending : List ℕ) (i : ℕ) (c : Client) (cs : List Client)
    → All Sound cs
    → length pending ≤ broadcast_buffer
    → get_elem? cs i ≡ some c
    → c.registered ≡ true
    → length c.send + length pending ≤ send_buffer
    → Delivered i (sent c pending) (
        run
          (replicate (length pending) fan_out)
          (some (record { clients = cs; broadcast = pending })))
unfolding run handle fan with_clients
drain [] i c cs s b at r room = record {
  hub = record { clients = cs; broadcast = [] };
  runs = refl;
  sound = record { clients = s; bounded = b };
  pending = refl;
  client = at ∙ ap some (ap (λ q. record c { send = q }) (sym (append-nil c.send)));
}
drain (seq ∷ later) i c cs s b at r room =
    let reached = each-sent seq i c cs s at r (omega arith) in
    let grown = length-append c.send (seq ∷ []) in
    let rest =
      drain later i (sent c (seq ∷ [])) reached.clients reached.sound (omega arith) reached.at r
        (omega (arith, grown)) in
    subst (λ x. Delivered i x (after (each (offer seq) cs))) (sent-sent c seq later)
      (subst (λ o. Delivered i (sent (sent c (seq ∷ [])) later) (after o)) (sym reached.made) rest)
  where
    after : Option (List Client) → Option Hub
    after o = run (replicate (length later) fan_out) (with_clients later o)

-- Where the hub's buffer has room, an event of Notify is not lost: once the hub has taken what is pending, it is the last
-- event in the channel of every client in its map that had room for all of them, behind the events
-- that were there and those that were pending, in their order.
pub notify-Delivered :
    (h : Hub) (seq : ℕ) (i : ℕ) (c : Client)
    → SoundHub h
    → length h.broadcast < broadcast_buffer
    → get_elem? h.clients i ≡ some c
    → c.registered ≡ true
    → length c.send + length h.broadcast < send_buffer
    → Delivered i
        (sent c (h.broadcast ++ seq ∷ []))
        (run (replicate (length (h.broadcast ++ seq ∷ [])) fan_out) (some (enqueue seq h)))
unfolding enqueue
notify-Delivered h seq i c s room at r buffered =
    let longer = length-append h.broadcast (seq ∷ []) in
    rw (lt→ltb (length h.broadcast) broadcast_buffer room) (
      drain (h.broadcast ++ seq ∷ []) i c h.clients s.clients (omega (arith, longer)) at r
        (omega (arith, longer)))
