-- ===== src/System/Tests.antt =====
-- A run of the server: a client connects, a device syncs, the hub tells the client, and the trash is swept.
use retainer.Prelude.{refl, some, List, [], ◌∷◌}
use retainer.Prelude.Text.{codes}
use retainer.Schema.{init}
use retainer.Labels.Names.{Unique}
use retainer.Hub.{fan_out, pump}
use retainer.Auth.Samples.{drops, flat, shifted, digest, configured}
use retainer.Http.Samples.{plain, sync_request, match_all, not_found}
use retainer.System.{Event, requested, in_hub, swept, start, run_all}
use retainer.System.Safe.{Going, run_all-WellFormed}

abbrev morning : List Event
morning =
    requested (record plain {
      method = "POST";
      path = "api" ∷ "auth" ∷ "login" ∷ [];
      password = some (codes "horse");
      token = some "t";
    })
    ∷ requested (record plain { path = "ws" ∷ []; cookie = some "t" })
    ∷ requested sync_request
    ∷ in_hub fan_out
    ∷ in_hub (pump 0)
    ∷ swept 700000000
    ∷ []

no_labels : Unique init.labels
unfolding Unique
no_labels l k ml mk same = elim ml [ ]

run_all-WellFormed_example :
    Going drops flat shifted digest match_all not_found configured.config
      (run_all flat shifted digest match_all not_found morning (some (start drops configured)))
run_all-WellFormed_example =
    run_all-WellFormed drops flat shifted digest match_all not_found configured.config configured
      no_labels refl morning
