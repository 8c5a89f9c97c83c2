-- ===== src/System/Safe.antt =====
-- What holds of the server at any time.
use retainer.Prelude.{◌≡◌, refl, String, Option, some, List, [], ◌∷◌}
use retainer.Prelude.Text.{Text}
use retainer.Schema.{Db, FtsRow}
use retainer.Purge.{sweep}
use retainer.Labels.Names.{Unique}
use retainer.Hub.Safe.{new_hub-Sound, handle-Safe}
use retainer.Auth.RateLimit.{Bucket}
use retainer.Auth.Password.{Argon2, Base64}
use retainer.Http.{HttpRequest, HttpReply, App}
use retainer.Http.Shares.{sweep-Shares}
use retainer.Http.WellFormed.{WellFormed, with_db}
use retainer.Http.Invariant.{router-WellFormed}
use retainer.System.{Event, requested, in_hub, swept, start, with_hub, step, run_all}

module _ (b : Bucket) (argon : Argon2) (base64 : Base64) (hash_token : String → String)
    (fts_match : Text → List FtsRow → List FtsRow) (unrouted : HttpRequest → HttpReply)
    (config : List (String × Text)) where
  -- The server runs on, and its state is well-formed.
  pub Going : Option (App b) → Type 0
  Going o = (s : App b) × (o ≡ some s) × WellFormed config s

  step-Going :
      (e : Event) (s : App b)
      → WellFormed config s
      → Going (step argon base64 hash_token fts_match unrouted e s)
  unfolding step Going with_hub
  step-Going (requested r) s w =
      (_, refl, router-WellFormed config b argon base64 hash_token fts_match unrouted r s w)
  step-Going (in_hub m) s w =
      let (h, e, sound) = handle-Safe m s.hub w.hub in
      (
        record s { hub = h },
        rw e refl,
        record { names = w.names; hub = sound; settings = w.settings },
      )
  step-Going (swept now) s w =
      (_, refl, with_db config s (sweep now s.db).1 w (sweep-Shares now s.db))

  run_all-Going :
      (es : List Event) (o : Option (App b))
      → Going o
      → Going (run_all argon base64 hash_token fts_match unrouted es o)
  unfolding run_all Going
  run_all-Going [] o (s, e, w) = rw (e, run_all) (s, refl, w)
  run_all-Going (ev ∷ es) o (s, e, w) =
      rw (e, run_all)
        (run_all-Going es (step argon base64 hash_token fts_match unrouted ev s)
          (step-Going ev s w))

  -- The server starts on a database in which no two labels have one name. However requests, the events of the hub
  -- and of its clients, and the sweeps of the trash follow one another, no channel panics; no
  -- two labels have one name, the hub is sound, and the settings, the password among them, are as they were at the start.
  pub run_all-WellFormed :
      (db : Db)
      → Unique db.labels
      → db.config ≡ config
      → (es : List Event)
      → Going (run_all argon base64 hash_token fts_match unrouted es (some (start b db)))
  unfolding Going
  run_all-WellFormed db names settings es =
      run_all-Going es (some (start b db))
        (start b db, refl, record { names = names; hub = new_hub-Sound; settings = settings })
