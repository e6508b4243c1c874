-- ===== src/Intent/Postgres/Create.antt =====
-- The transactional outbox: `Create` writes an intent and its event together or not at all.
use aien.Prelude.{
  ◌≡◌, ◌≢◌, ◌⊎◌, inl, inr, false, [], ◌∷◌, ◌++◌, none, some, String, arith, Option-cases,
}
use aien.Prelude.Sql.{ok, Server, transact-cases}
use aien.Intent.Types.{Intent, SubmitIntentRequest, Time, Bytes}
use aien.Intent.Table.{Database, find_row, has_event}
use aien.Intent.Postgres.{
  Statement, database, Formats, created_intent, created_row, created_event, create_body, create,
}

module _ (formats : Formats) where
  open formats use {marshal, column_time}

  -- The intent and its event have been written, and were not there before.
  pub record Written (id outbox_id : String) (now : Time) (req : SubmitIntentRequest)
      (db db' : Database) : Type 0 where
    pub event_data : Bytes
    pub encoded : marshal (created_intent id now req) ≡ some event_data
    pub fresh : find_row id db.intents ≡ none
    pub unused : has_event outbox_id db.outbox ≡ false
    pub intents : db'.intents ≡ db.intents ++ created_row formats id now req ∷ []
    pub outbox :
        db'.outbox ≡ db.outbox ++ created_event formats outbox_id now req.type_of event_data ∷ []

  create_body_unmarshalled :
      (server : Server Statement) (id outbox_id : String) (now : Time) (req : SubmitIntentRequest)
      (db db' : Database) (i : Intent)
      → marshal (created_intent id now req) ≡ none
      → create_body formats server id outbox_id now req db ≢ ok (i, db')
  unfolding create_body
  create_body_unmarshalled server id outbox_id now req db db' i none_given h = ground arith

  create_body-Written :
      (server : Server Statement) (id outbox_id : String) (now : Time) (req : SubmitIntentRequest)
      (db db' : Database) (i : Intent)
      → create_body formats server id outbox_id now req db ≡ ok (i, db')
      → Written id outbox_id now req db db'
  unfolding create_body created_row created_event
  create_body-Written server id outbox_id now req db db' i h =
      elim (Option-cases (marshal (created_intent id now req))) [
        | inl none_given ↦
            absurd (create_body_unmarshalled server id outbox_id now req db db' i none_given h)
        | inr (bytes, given) ↦ record {
          event_data = bytes;
          encoded = given;
          fresh = ground arith;
          unused = ground arith;
          intents = ground arith;
          outbox = ground arith;
        }
      ]

  -- After a `create`, whether the server answered it or not, either nothing has changed or both the
  -- intent and its event are there.
  pub create-Written :
      (server : Server Statement) (id outbox_id : String) (now : Time) (req : SubmitIntentRequest)
      (db : Database)
      → let db' = (create formats server id outbox_id now req db).0 in
        (db' ≡ db) ⊎ Written id outbox_id now req db db'
  unfolding create
  create-Written server id outbox_id now req db =
      elim (transact-cases server database (create_body formats server id outbox_id now req) db) [
        | inl same ↦ inl same
        | inr (p, body_ok, e) ↦
            rw e (inr (create_body-Written server id outbox_id now req db p.1 p.0 body_ok))
      ]
