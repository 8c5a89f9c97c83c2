-- ===== src/Sync/Untouched.antt =====
-- The tables that the merge does not write.
use retainer.Prelude.{◌≡◌, refl, sym, subst, ◌∙◌, String, Bool, true, false, if◌then◌else◌}
use retainer.Prelude.Int.{ℤ}
use retainer.Schema.{Db}
use retainer.Sync.Wire.{Mutation}
use retainer.Sync.Applied.{Applied}
use retainer.Sync.Notes.Step.{NoteStep, with_index, written_rows}
use retainer.Sync.Notes.{is_note_content}
use retainer.Sync.Items.{is_item_content, reindexed_note}
use retainer.Sync.Items.Step.{ItemStep, written_items}
use retainer.Sync.Attachments.Step.{LabelStep}

pub record Untouched (d e : Db) : Type 0 where
  pub labels : e.labels ≡ d.labels
  pub sessions : e.sessions ≡ d.sessions
  pub config : e.config ≡ d.config

pub Untouched-refl : (d : Db) → Untouched d d
Untouched-refl d = record { labels = refl; sessions = refl; config = refl }

pub Untouched-trans : (c d e : Db) → Untouched c d → Untouched d e → Untouched c e
Untouched-trans c d e p q = record {
  labels = q.labels ∙ p.labels;
  sessions = q.sessions ∙ p.sessions;
  config = q.config ∙ p.config;
}

indexed_Untouched :
    (d e : Db) (content : Bool) (id : String)
    → Untouched d e
    → Untouched d (if content then with_index id e else e)
indexed_Untouched d e true id p = record {
  labels = p.labels;
  sessions = p.sessions;
  config = p.config;
}
indexed_Untouched d e false id p = p

-- A database that has those tables of `d`
shared :
    (d e : Db) → e.labels ≡ d.labels → e.sessions ≡ d.sessions → e.config ≡ d.config → Untouched d e
shared d e l s c = record { labels = l; sessions = s; config = c }

pub Applied-Untouched : (now : ℤ) (m : Mutation) (d e : Db) → Applied now m d e → Untouched d e
Applied-Untouched now m d e (Applied.note is (NoteStep.discarded c adm n found old same)) =
    subst (Untouched d) (sym same) (Untouched-refl d)
Applied-Untouched now m d e (Applied.note is (NoteStep.created c adm absent n decoded valid made)) =
    subst (Untouched d) (sym made) (shared d _ refl refl refl)
Applied-Untouched now m d e
      (Applied.note is (NoteStep.written c adm n found fresh v decoded valid made)) =
    subst (Untouched d) (sym made) (
      indexed_Untouched d (written_rows now c m v d) (is_note_content c) m.id
        (shared d _ refl refl refl))
Applied-Untouched now m d e (Applied.item n is (ItemStep.discarded c adm i found old same)) =
    subst (Untouched d) (sym same) (Untouched-refl d)
Applied-Untouched now m d e (Applied.item n is (ItemStep.created c adm absent i decoded made)) =
    subst (Untouched d) (sym made) (shared d _ refl refl refl)
Applied-Untouched now m d e
      (Applied.item n is (ItemStep.written c adm i found fresh v decoded made)) =
    subst (Untouched d) (sym made) (
      indexed_Untouched d (written_items c m v d) (is_item_content c) (reindexed_note m i)
        (shared d _ refl refl refl))
Applied-Untouched now m d e (Applied.label n i is (LabelStep.discarded b adm l found old same)) =
    subst (Untouched d) (sym same) (Untouched-refl d)
Applied-Untouched now m d e (Applied.label n i is (LabelStep.created b adm absent made)) =
    subst (Untouched d) (sym made) (shared d _ refl refl refl)
Applied-Untouched now m d e (Applied.label n i is (LabelStep.written b adm l found fresh made)) =
    subst (Untouched d) (sym made) (shared d _ refl refl refl)
