-- ===== src/Storage/Setup/Refreshing.antt =====
-- What the set-up leaves on a Postgres server.
use aos_operator.Shared.{
  ◌≡◌, refl, sym, ap, ◌∙◌, Bool, true, false, none, some, ◌∷◌, ◌++◌, err, Option-cases, inl, inr,
}
use aos_operator.Shared.Text.{Text, codes, text_eq}
use aos_operator.Storage.Setup.{
  DbServer, plain_name, is_authority, server_url, postgres, drop_if_exists, create, migrations,
  asserted, Result, up_ended, migrate, by_backend, setup_db,
}

module _ (server : DbServer) where
  open server use {
    State, Connection, database, connect, get_database_backend, execute, up, has_table,
    connected_to,
  }

  -- Why the set-up ends, and with which result: the server is not reached; the database cannot be
  -- dropped; it cannot be created although there is none of that name any more; the new database is
  -- not reached; its migrations fail; or they are done, and it has just their tables.
  pub data Ended (request_url name : Text) (s : State) : Result server → Type 0 where
    not_reached : connect request_url s ≡ none → Ended request_url name s (s, err tt)
    not_dropped :
        (db : Connection)
        → connect request_url s ≡ some db
        → execute db (drop_if_exists name) s ≡ none
        → Ended request_url name s (s, err tt)
    not_created :
        (db : Connection) (dropped : State)
        → execute db (drop_if_exists name) s ≡ some dropped
        → database name dropped ≡ none
        → execute db (create name) dropped ≡ none
        → Ended request_url name s (dropped, err tt)
    new_not_reached :
        (created : State)
        → database name created ≡ some server.empty
        → connect (request_url ++ (b'/' ∷ name)) created ≡ none
        → Ended request_url name s (created, err tt)
    not_migrated :
        (new : Connection) (created after : State)
        → connected_to new ≡ name
        → database name created ≡ some server.empty
        → up new migrations created ≡ (after, false)
        → Ended request_url name s (after, err tt)
    is_new :
        (new : Connection) (after : State)
        → connected_to new ≡ name
        → database name after ≡ some (server.migrated migrations server.empty)
        → Ended request_url name s (after, asserted new (has_table new (codes "clock_infos") after))

  -- Another database is as it was.
  abbrev pub Refreshed : Text → Text → Text → State → Result server → Type 0
  Refreshed other request_url name s r =
      (database other r.0 ≡ database other s) × Ended request_url name s r

  up_ended-Refreshed :
      (other request_url name : Text) (s created : State) (new : Connection) (moved : State × Bool)
      → connected_to new ≡ name
      → database name created ≡ some server.empty
      → up new migrations created ≡ moved
      → (database other moved.0 ≡ database other s)
      → (moved.1 ≡ true → database name moved.0 ≡ some (server.migrated migrations server.empty))
      → Refreshed other request_url name s (up_ended server new moved)
  up_ended-Refreshed other request_url name s created new (after, false) on empty moves same fresh =
      (same, not_migrated new created after on empty moves)
  up_ended-Refreshed other request_url name s created new (after, true) on empty moves same fresh =
      (same, is_new new after on (fresh refl))

  migrate-Refreshed :
      (other request_url name : Text) (s created : State) (new : Connection)
      → text_eq other name ≡ false
      → connected_to new ≡ name
      → database other created ≡ database other s
      → database name created ≡ some server.empty
      → Refreshed other request_url name s (migrate server created new)
  unfolding migrate
  migrate-Refreshed other request_url name s created new apart on same empty =
      up_ended-Refreshed other request_url name s created new (up new migrations created) on empty
        refl (server.up_others new migrations created other (ap (text_eq other) on ∙ apart) ∙ same)
        (λ done.
          ap (λ t. database t (up new migrations created).0) (sym on)
          ∙ server.up_lem new migrations created server.empty
              (ap (λ t. database t created) on ∙ empty) done)

  -- On a Postgres server at an address without a database and a query, and for a plain name,
  -- `setup_db` leaves every other database as it was, however it ends. It fails only if the server is
  -- not reached, the database cannot be dropped, it cannot be created although none of that name is
  -- left, the new one is not reached, or its migrations fail. Otherwise the named database has just
  -- the tables of the migrations, so what was in a database of that name is gone, and the result is
  -- whether `clock_infos` is found in it: an error of that query, the connection, or a panic.
  pub setup_db_refreshes :
      (authority name other : Text) (slash : Bool) (s : State)
      → ((c : Connection) → get_database_backend c ≡ postgres)
      → is_authority authority ≡ true
      → plain_name name ≡ true
      → text_eq other name ≡ false
      → Refreshed other
          (server_url authority slash)
          name
          s
          (setup_db server (server_url authority slash) name s)
  unfolding setup_db by_backend
  setup_db_refreshes authority name other slash s backend host plain apart =
      let request_url = server_url authority slash in
      elim (Option-cases (connect request_url s)) [
        | inl failed ↦ rw failed (refl, not_reached failed)
        | inr (db, made) ↦
            rw (made, backend db)
              (elim (Option-cases (execute db (drop_if_exists name) s)) [
                | inl failed ↦ rw failed (refl, not_dropped db made failed)
                | inr (s1, dropped) ↦
                    let (gone, others1) = server.drop_lem db name s s1 plain dropped in
                    let same1 = others1 other apart in
                    rw dropped (elim (Option-cases (execute db (create name) s1)) [
                      | inl failed ↦ rw failed (same1, not_created db s1 dropped gone failed)
                      | inr (s2, created) ↦
                          let (new, others2) = server.create_lem db name s1 s2 plain created in
                          let same2 = others2 other apart ∙ same1 in
                          rw created
                            (elim (Option-cases (connect (request_url ++ (b'/' ∷ name)) s2)) [
                              | inl failed ↦ rw failed (same2, new_not_reached s2 new failed)
                              | inr (db2, made2) ↦ rw made2 (
                                  migrate-Refreshed other request_url name s s2 db2 apart
                                    (server.connect_lem authority name slash s2 db2 host plain
                                      made2)
                                    same2 new)
                            ])
                    ])
              ])
      ]
