-- ===== src/Db/Schema.antt =====
-- The constructor and the destructor of `DBManager` (CoroutineServer/DBManager.cpp) on the file
-- im.db, with `CreateTables` and `ExecuteSQL`. Whether `sqlite3_open` and the k-th `sqlite3_exec`
-- succeed is an argument; a statement that fails changes nothing.
use coroutine_server.Prelude.{
  ℕ, ◌-◌, ◌≡◌, ◌↔◌, Bool, true, false, ◌&&◌, not, Option, none, some, List, [], ◌∷◌, codes, arith,
  if◌then◌else◌,
}
use coroutine_server.Logic.Monad.{Result, ok, throw}
use coroutine_server.Db.{User, Friend, Message, Db}

pub data Index : Type 0 where
  idx_friends_uid idx_friends_friend_uid idx_messages_to_delivered : Index

-- The tables that the file has, with their rows and the next keys, and its indices.
pub record File : Type 0 where
  pub users : Option (List User)
  pub friends : Option (List Friend)
  pub messages : Option (List Message)
  pub next_uid : ℕ
  pub next_msg_id : ℕ
  pub indices : List Index

-- The file that `sqlite3_open` makes.
abbrev pub new_file : File
new_file = record {
  users = none;
  friends = none;
  messages = none;
  next_uid = 1;
  next_msg_id = 1;
  indices = [];
}

pub data Sql : Type 0 where
  journal_mode_wal foreign_keys_on create_users create_friends create_messages : Sql
  create_index : Index → Sql

-- IF NOT EXISTS
abbrev pub if_missing : {A : Type 0} → Option (List A) → Option (List A)
if_missing none = some []
if_missing (some rows) = some rows

abbrev pub has_index : Index → List Index → Bool
has_index i [] = false
has_index idx_friends_uid (idx_friends_uid ∷ is) = true
has_index idx_friends_friend_uid (idx_friends_friend_uid ∷ is) = true
has_index idx_messages_to_delivered (idx_messages_to_delivered ∷ is) = true
has_index i (_ ∷ is) = has_index i is

unfoldable pub exec : Sql → File → File
exec journal_mode_wal f = f
exec foreign_keys_on f = f
exec create_users f = record f { users = if_missing f.users }
exec create_friends f = record f { friends = if_missing f.friends }
exec create_messages f = record f { messages = if_missing f.messages }
exec (create_index i) f = record f {
  indices = if has_index i f.indices then f.indices else i ∷ f.indices;
}

-- `ExecuteSQL`
unfoldable pub execute_sql : Bool → Sql → File → Bool × File
execute_sql runs sql f = if runs then (true, exec sql f) else (false, f)

-- `CreateTables`; its statements are those with the numbers 2 to 7.
unfoldable pub create_tables : (ℕ → Bool) → File → Result (Unit {0}) × File
create_tables runs f =
    let (made_users, f1) = execute_sql (runs 2) create_users f in
    let (made_friends, f2) = execute_sql (runs 3) create_friends f1 in
    let (_, f3) = execute_sql (runs 4) (create_index idx_friends_uid) f2 in
    let (_, f4) = execute_sql (runs 5) (create_index idx_friends_friend_uid) f3 in
    let (made_messages, f5) = execute_sql (runs 6) create_messages f4 in
    let (_, f6) = execute_sql (runs 7) (create_index idx_messages_to_delivered) f5 in
    if not made_users
    then (throw (codes "failed to create users table"), f1)
    else if not made_friends
    then (throw (codes "failed to create friends table"), f2)
    else if not made_messages
    then (throw (codes "failed to create messages table"), f5)
    else (ok tt, f6)

-- What the constructor gives: whether it returns or throws, the connections to the file that are open
-- then, and the file.
pub record Opened : Type 0 where
  pub result : Result (Unit {0})
  pub connections : ℕ
  pub file : File

-- `DBManager::DBManager`. Where it throws, the destructor does not run.
unfoldable pub db_manager : Bool → (ℕ → Bool) → File → Opened
db_manager opens runs f =
    let (_, f0) = execute_sql (runs 0) journal_mode_wal f in
    let (_, f1) = execute_sql (runs 1) foreign_keys_on f0 in
    let (made, f2) = create_tables runs f1 in
    if not opens
    then record { result = throw (codes "cannot open im.db database"); connections = 0; file = f }
    else record { result = made; connections = 1; file = f2 }

-- `DBManager::~DBManager`
unfoldable pub close_db : Opened → Opened
close_db o = record o { connections = o.connections - 1 }

-- The file has the three tables, with these rows and keys.
pub record Holds (db : Db) (f : File) : Type 0 where
  pub users : f.users ≡ some db.users
  pub friends : f.friends ≡ some db.friends
  pub messages : f.messages ≡ some db.messages
  pub next_uid : f.next_uid ≡ db.next_uid
  pub next_msg_id : f.next_msg_id ≡ db.next_msg_id

abbrev pub no_rows : Db
no_rows = record { users = []; friends = []; messages = []; next_uid = 1; next_msg_id = 1 }

-- The constructor returns exactly if the file opens and the three CREATE TABLE succeed, whatever
-- becomes of the PRAGMAs and of the indices.
pub db_manager_iff :
    (opens : Bool) (runs : ℕ → Bool) (f : File)
    → ((db_manager opens runs f).result ≡ ok tt)
      ↔ ((opens && (runs 2 && (runs 3 && runs 6))) ≡ true)
unfolding db_manager create_tables execute_sql
db_manager_iff opens runs f = ground arith

-- A start on a file that holds rows keeps all rows and keys, whichever calls of SQLite fail; a start
-- on a new file that returns leaves the three tables, empty.
pub db_manager-Holds :
    (opens : Bool) (runs : ℕ → Bool) (db : Db) (f : File)
    → (Holds db f → Holds db (db_manager opens runs f).file)
      × ((db_manager opens runs new_file).result ≡ ok tt
          → Holds no_rows (db_manager opens runs new_file).file)
unfolding db_manager create_tables execute_sql exec
db_manager-Holds opens runs db f = (λ h. ground (arith, h), λ e. ground (arith, e))
