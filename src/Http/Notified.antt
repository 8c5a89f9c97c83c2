-- ===== src/Http/Notified.antt =====
-- What a request to the sync endpoint does, and whom it tells.
use retainer.Prelude.{
  ℕ, ◌+◌, ◌<◌, ◌≡◌, refl, sym, ap, subst, ◌∙◌, true, Option, none, some, List, [], ◌∷◌, ◌++◌, arith,
  length, replicate, get_elem?, lt→ltb,
}
use retainer.Schema.{Db}
use retainer.Store.{Error, Result, ok, err}
use retainer.Sync.{apply}
use retainer.Sync.Wire.{Mutation}
use retainer.Sync.Pull.{Changes}
use retainer.Sync.Applied.{answered}
use retainer.Sync.Requests.{apply-pull, apply-refused}
use retainer.Hub.{Client, fan_out, enqueue, send_buffer, broadcast_buffer, run}
use retainer.Hub.Safe.{SoundHub}
use retainer.Hub.Delivery.{Delivered, sent, notify-Delivered}
use retainer.Auth.RateLimit.{Bucket}
use retainer.Http.{HttpRequest, HttpReply, Body, App, write_json, write_error}
use retainer.Http.Notes.{notify_if, sync_reply, sync_decoded, handle_sync}

-- The ways in which a sync request is answered
pub data Synced {b : Bucket} (r : HttpRequest) (s : App b) (a : HttpReply × App b) : Type 0 where
  undecoded :
      r.sync ≡ none → a ≡ (write_error 400 (Body.message "invalid JSON body"), s) → Synced r s a
  rejected :
      (since : ℕ) (ms : List Mutation) (x : Error)
      → r.sync ≡ some (since, ms)
      → apply r.clock since ms s.db ≡ (err x, s.db)
      → a ≡ (write_error 400 (Body.failure x), s)
      → Synced r s a
  pulled :
      (since : ℕ)
      → r.sync ≡ some (since, [])
      → a ≡ (write_json 200 (Body.synced s.db.counter (answered since s.db).1), s)
      → Synced r s a
  pushed :
      (since : ℕ) (m : Mutation) (ms : List Mutation) (seq : ℕ) (changes : Changes) (e : Db)
      → r.sync ≡ some (since, m ∷ ms)
      → apply r.clock since (m ∷ ms) s.db ≡ (ok (seq, changes), e)
      → a ≡ (write_json 200 (Body.synced seq changes), record s { db = e; hub = enqueue seq s.hub })
      → Synced r s a

module _ {b : Bucket} (r : HttpRequest) (s : App b) where
  told :
      (m : Mutation) (ms : List Mutation) (seq : ℕ) (changes : Changes) (e : Db)
      → sync_reply (m ∷ ms) (ok (seq, changes), e) s
        ≡ (write_json 200 (Body.synced seq changes), record s { db = e; hub = enqueue seq s.hub })
  unfolding sync_reply notify_if
  told m ms seq changes e =
      ap (λ c. (write_json 200 (Body.synced seq changes), notify_if c seq (record s { db = e })))
        (lt→ltb 0 (length (m ∷ ms)) (omega arith))

  replied :
      (since : ℕ) (ms : List Mutation) (o : Result (ℕ × Changes) × Db)
      → r.sync ≡ some (since, ms)
      → apply r.clock since ms s.db ≡ o
      → Synced r s (sync_reply ms o s)
  unfolding sync_reply notify_if
  replied since ms (err x, e) sent_in h =
      let same = apply-refused r.clock since ms s.db e x h in
      Synced.rejected since ms x sent_in (h ∙ ap (λ d. (err x, d)) same)
        (ap (λ d. (write_error 400 (Body.failure x), record s { db = d })) same)
  replied since [] (ok (seq, changes), e) sent_in h =
      Synced.pulled since sent_in
        (ap (λ o. sync_reply [] o s) (sym h ∙ apply-pull r.clock since s.db))
  replied since (m ∷ ms) (ok (seq, changes), e) sent_in h =
      Synced.pushed since m ms seq changes e sent_in h (told m ms seq changes e)

  decoded : (q : Option (ℕ × List Mutation)) → r.sync ≡ q → Synced r s (sync_decoded r.clock q s)
  unfolding sync_decoded
  decoded none sent_in = Synced.undecoded sent_in refl
  decoded (some (since, ms)) sent_in = replied since ms (apply r.clock since ms s.db) sent_in refl

  -- A sync request is answered in one of four ways. A body that does not decode and a batch of which a mutation is
  -- refused get 400, and leave everything as it was. A request without mutations gets what has changed, and leaves
  -- everything as it was; nobody is told. A batch that is accepted leaves its database, and its new
  -- sequence number is what the hub is told.
  pub handle_sync-Synced : Synced r s (handle_sync r s)
  unfolding handle_sync
  handle_sync-Synced = decoded r.sync refl

  -- A batch is accepted, while the hub's buffer has room. Once the hub has taken what is pending, every client in
  -- its map that had room for all of it has the batch's new sequence number as the last event in its channel.
  pub handle_sync-Delivered :
      (since : ℕ) (m : Mutation) (ms : List Mutation) (seq : ℕ) (changes : Changes) (e : Db)
      → r.sync ≡ some (since, m ∷ ms)
      → apply r.clock since (m ∷ ms) s.db ≡ (ok (seq, changes), e)
      → SoundHub s.hub
      → length s.hub.broadcast < broadcast_buffer
      → (i : ℕ) (c : Client) → get_elem? s.hub.clients i ≡ some c
      → c.registered ≡ true
      → length c.send + length s.hub.broadcast < send_buffer
      → Delivered i (sent c (s.hub.broadcast ++ seq ∷ [])) (
          run
            (replicate (length (s.hub.broadcast ++ seq ∷ [])) fan_out)
            (some (handle_sync r s).1.hub))
  unfolding handle_sync sync_decoded
  handle_sync-Delivered since m ms seq changes e sent_in accepted sound room i c at reg buffered =
      subst
        (λ (a : HttpReply × App b).
          Delivered i (sent c (s.hub.broadcast ++ seq ∷ []))
            (run (replicate (length (s.hub.broadcast ++ seq ∷ [])) fan_out) (some a.1.hub)))
        (sym (
          ap (λ q. sync_decoded r.clock q s) sent_in
          ∙ ap (λ o. sync_reply (m ∷ ms) o s) accepted
          ∙ told m ms seq changes e))
        (notify-Delivered s.hub seq i c sound room at reg buffered)
