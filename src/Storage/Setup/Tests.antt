-- ===== src/Storage/Setup/Tests.antt =====
-- The set-up of a database on a concrete server.
use aos_operator.Shared.{
  ◌≡◌, refl, sym, ◌∙◌, Bool, true, false, ◌||◌, ◌==◌, Option, none, some, List, [], ◌∷◌, ◌++◌,
  if◌then◌else◌, arith,
}
use aos_operator.Shared.Text.{Text, codes, text_eq, text_eq_refl}
use aos_operator.Storage.{TableDef}
use aos_operator.Storage.Setup.{
  DbServer, postgres, Statement, create_if_not_exists, drop_if_exists, create, plain_name,
  all_plain, is_authority, all_authority, server_url, setup_db,
}
use aos_operator.Storage.Setup.Refreshing.{Refreshed, setup_db_refreshes}

-- A server is what its databases hold, and a connection the name of its database.
has_slash : Text → Bool
has_slash [] = false
has_slash (c ∷ s) = (c == b'/') || has_slash s

last_part : Text → Text
unfolding has_slash
last_part [] = []
last_part (c ∷ s) =
    let rest = last_part s in if has_slash s then rest else if c == b'/' then s else c ∷ s

plain_no_slash : (s : Text) → all_plain s ≡ true → has_slash s ≡ false
unfolding all_plain has_slash
plain_no_slash [] h = refl
plain_no_slash (c ∷ s) h = ground (arith, plain_no_slash s)

plain_all : (name : Text) → plain_name name ≡ true → all_plain name ≡ true
unfolding plain_name
plain_all name h = ground arith

slash_inside : (url name : Text) → has_slash (url ++ (b'/' ∷ name)) ≡ true
unfolding has_slash
slash_inside [] name = refl
slash_inside (c ∷ url) name = ground (arith, slash_inside url name)

last_part_lem : (url name : Text) → plain_name name ≡ true → last_part (url ++ (b'/' ∷ name)) ≡ name
unfolding last_part
last_part_lem [] name h = rw (plain_no_slash name (plain_all name h)) refl
last_part_lem (c ∷ url) name h = rw (slash_inside url name) (last_part_lem url name h)

abbrev Databases : Type 0
Databases = Text → Option (List TableDef)

abbrev created : Option (List TableDef) → Text → Databases → Option Databases
created none name s = some (λ n. if text_eq n name then some [] else s n)
created (some d) name s = none

abbrev executed : Statement → Databases → Option Databases
executed (create_if_not_exists name) s = some s
executed (drop_if_exists name) s = some (λ n. if text_eq n name then none else s n)
executed (create name) s = created (s name) name s

abbrev added : List TableDef → Option (List TableDef) → Option (List TableDef)
added tables none = none
added tables (some d) = some (d ++ tables)

dropped_lem :
    (name : Text) (s after : Databases)
    → executed (drop_if_exists name) s ≡ some after
    → (after name ≡ none) × ((other : Text) → text_eq other name ≡ false → after other ≡ s other)
dropped_lem name s after done =
    let same : (λ n. if text_eq n name then none else s n) ≡ after = cc in
    (rw (← same, text_eq_refl name) refl, λ other apart. rw (← same, apart) refl)

created_lem :
    (held : Option (List TableDef)) (name : Text) (s after : Databases)
    → created held name s ≡ some after
    → (after name ≡ some []) × ((other : Text) → text_eq other name ≡ false → after other ≡ s other)
created_lem (some d) name s after done = absurd cc
created_lem none name s after done =
    let same : (λ n. if text_eq n name then some [] else s n) ≡ after = cc in
    (rw (← same, text_eq_refl name) refl, λ other apart. rw (← same, apart) refl)

connected_lem :
    (url name c : Text)
    → plain_name name ≡ true
    → some (last_part (url ++ (b'/' ∷ name))) ≡ some c
    → c ≡ name
connected_lem url name c plain made =
    let same : last_part (url ++ (b'/' ∷ name)) ≡ c = cc in sym same ∙ last_part_lem url name plain

abbrev toy_server : DbServer
toy_server = record {
  State = Databases;
  Connection = Text;
  Database = List TableDef;
  database = λ name s. s name;
  connect = λ url s. some (last_part url);
  get_database_backend = λ c. postgres;
  execute = λ c statement s. executed statement s;
  up = λ c tables s. (λ n. if text_eq n c then added tables (s n) else s n, true);
  has_table = λ c name s. some true;
  connected_to = λ c. c;
  empty = [];
  migrated = λ tables d. d ++ tables;
  connect_lem = λ authority name slash s c host plain made.
      connected_lem (server_url authority slash) name c plain made;
  drop_lem = λ c name s after plain done. dropped_lem name s after done;
  create_lem = λ c name s after plain done. created_lem (s name) name s after done;
  up_lem = λ c tables s d held done. rw (text_eq_refl c, held) refl;
  up_others = λ c tables s other apart. rw apart refl;
}

-- A server that holds a database without tables under every name.
abbrev two : Databases
two = λ name. some []

aos_plain : plain_name (codes "aos") ≡ true
unfolding plain_name all_plain
aos_plain = refl

host_port : is_authority (codes "postgres@h:5432") ≡ true
unfolding is_authority all_authority
host_port = refl

other_apart : text_eq (codes "log") (codes "aos") ≡ false
unfolding text_eq
other_apart = refl

setup_db_refreshes_example :
    Refreshed toy_server
      (codes "log")
      (codes "postgres://postgres@h:5432/")
      (codes "aos")
      two
      (setup_db toy_server (codes "postgres://postgres@h:5432/") (codes "aos") two)
setup_db_refreshes_example =
    setup_db_refreshes toy_server (codes "postgres@h:5432") (codes "aos") (codes "log") true two
      (λ c. refl) host_port aos_plain other_apart
