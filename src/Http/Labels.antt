-- ===== src/Http/Labels.antt =====
-- The handlers of server/internal/httpapi/labels.go.
use retainer.Prelude.{ℕ, String, Option, none, some}
use retainer.Prelude.Text.{Text}
use retainer.Prelude.Int.{pos}
use retainer.Schema.{Db, LabelRow}
use retainer.Store.{Error, Result, ok, err}
use retainer.Labels.{list, create, rename, delete_label}
use retainer.Auth.RateLimit.{Bucket}
use retainer.Auth.Login.{unix_milli}
use retainer.Http.{HttpRequest, HttpReply, Body, App, Handler, write_json, write_error}

-- `errors.Is(err, labelsvc.ErrNameTaken)`, and what other errors are answered with
unfoldable pub create_error : Error → HttpReply
create_error Error.name_taken = write_error 409 (Body.failure Error.name_taken)
create_error e = write_error 400 (Body.failure e)

unfoldable pub rename_error : Error → HttpReply
unfolding create_error
rename_error Error.not_found = write_error 404 (Body.message "label not found")
rename_error e = create_error e

unfoldable pub delete_error : Error → HttpReply
delete_error Error.not_found = write_error 404 (Body.message "label not found")
delete_error e = write_error 500 (Body.failure e)

module _ {b : Bucket} where
  -- `handleListLabels`
  unfoldable pub handle_list_labels : Handler b
  handle_list_labels r s = (write_json 200 (Body.all_labels (list s.db)), s)

  unfoldable pub label_reply :
      ℕ → (Error → HttpReply) → Result (LabelRow × Db) → App b → HttpReply × App b
  label_reply status failed (ok (label, db')) s =
      (write_json status (Body.a_label label), record s { db = db' })
  label_reply status failed (err e) s = (failed e, s)

  unfoldable pub create_from : HttpRequest → Option Text → App b → HttpReply × App b
  unfolding label_reply create_error
  create_from r none s = (write_error 400 (Body.message "invalid JSON body"), s)
  create_from r (some name) s =
      label_reply 201 create_error (create r.uuid name (pos (unix_milli r.now)) s.db) s

  -- `handleCreateLabel`
  unfoldable pub handle_create_label : Handler b
  unfolding create_from
  handle_create_label r s = create_from r r.name s

  unfoldable pub rename_from : String → Option Text → App b → HttpReply × App b
  unfolding label_reply rename_error
  rename_from id none s = (write_error 400 (Body.message "invalid JSON body"), s)
  rename_from id (some name) s = label_reply 200 rename_error (rename id name s.db) s

  -- `handleRenameLabel`
  unfoldable pub handle_rename_label : String → Handler b
  unfolding rename_from
  handle_rename_label id r s = rename_from id r.name s

  unfoldable pub deleted_reply : Result (Unit {0}) × Db → App b → HttpReply × App b
  unfolding delete_error
  deleted_reply (ok u, db') s = (write_json 204 Body.empty, record s { db = db' })
  deleted_reply (err e, db') s = (delete_error e, record s { db = db' })

  -- `handleDeleteLabel`
  unfoldable pub handle_delete_label : String → Handler b
  unfolding deleted_reply
  handle_delete_label id r s = deleted_reply (delete_label id s.db) s
