-- ===== src/Logic/Invariant.antt =====
-- Every handler keeps the invariant of the server.
use coroutine_server.Prelude.{
  ℕ, ◌≤◌, ◌+◌, c_str, ◌≡◌, sym, true, some, List, [], ◌∷◌, Bytes, ℤ, pos, ◌<ℤ◌, arith, subst,
  Option-cases, inl, inr,
}
use coroutine_server.Wire.Endian.{ByteOrder}
use coroutine_server.Db.{
  Db, User, Outcome, register_user, login_user, add_friend, save_message, get_offline_messages,
  find_user,
}
use coroutine_server.Db.Users.{Uids, AccountsValid, register_user-AccountsValid}
use coroutine_server.Db.Messages.{
  MessagesValid, save_message-MessagesValid, get_offline_messages-MessagesValid,
}
use coroutine_server.World.{World, close, send, get_session}
use coroutine_server.World.Logins.{LoginInv, send-LoginInv, close-LoginInv, get_session-LoginInv}
use coroutine_server.Logic.Replies.{on_db}

pub record ServerInv (w : World) : Type 0 where
  pub logins : LoginInv w
  pub accounts : AccountsValid w.db
  pub messages : MessagesValid w.db

pub send-ServerInv :
    (order : ByteOrder) (sid : ℕ) (msg : Bytes) (id : ℕ) (w : World)
    → ServerInv w
    → ServerInv (send order sid msg id w)
send-ServerInv order sid msg id w v = record {
  logins = send-LoginInv order sid msg id w v.logins;
  accounts = unfold send in v.accounts;
  messages = unfold send in v.messages;
}

close-db : (sid : ℕ) (w : World) → (close sid w).db ≡ w.db
unfolding close
close-db sid w = ground arith

pub close-ServerInv : (sid : ℕ) (w : World) → ServerInv w → ServerInv (close sid w)
close-ServerInv sid w v = record {
  logins = close-LoginInv sid w v.logins;
  accounts = subst AccountsValid (sym (close-db sid w)) v.accounts;
  messages = subst MessagesValid (sym (close-db sid w)) v.messages;
}

pub get_session-ServerInv : (uid : ℤ) (w : World) → ServerInv w → ServerInv (get_session uid w).1
get_session-ServerInv uid w v = record {
  logins = get_session-LoginInv uid w v.logins;
  accounts = unfold get_session in v.accounts;
  messages = unfold get_session in v.messages;
}

-- A new database.
db-ServerInv :
    (w : World) (db : Db)
    → AccountsValid db
    → MessagesValid db
    → ServerInv w
    → ServerInv (record w { db = db })
db-ServerInv w db a m v = record {
  logins = record { named = v.logins.named; signs = v.logins.signs; gone = v.logins.gone };
  accounts = a;
  messages = m;
}

register_user-MessagesValid :
    (hasher : Bytes → ℕ) (o : Outcome) (name password : Bytes) (db : Db)
    → MessagesValid db
    → MessagesValid (register_user hasher o name password db).1
unfolding register_user
register_user-MessagesValid hasher o name password db v = ground arith

add_friend-MessagesValid :
    (o : Outcome) (a b : ℤ) (db : Db) → MessagesValid db → MessagesValid (add_friend o a b db).1
unfolding add_friend
add_friend-MessagesValid o a b db v = ground arith

add_friend-AccountsValid :
    (o : Outcome) (a b : ℤ) (db : Db) → AccountsValid db → AccountsValid (add_friend o a b db).1
unfolding add_friend
add_friend-AccountsValid o a b db v = ground arith

save_message-AccountsValid :
    (o : Outcome) (a b : ℤ) (content timestamp : Bytes) (db : Db)
    → AccountsValid db
    → AccountsValid (save_message o a b content timestamp db).1
unfolding save_message
save_message-AccountsValid o a b content timestamp db v = ground arith

get_offline_messages-AccountsValid :
    (o : Outcome) (uid : ℤ) (db : Db)
    → AccountsValid db
    → AccountsValid (get_offline_messages o uid db).1
unfolding get_offline_messages
get_offline_messages-AccountsValid o uid db v = ground arith

-- A method of the database that keeps its tables valid.
abbrev pub KeepsTables : {A : Type 0} → (Db → A × Db) → Type 0
KeepsTables f =
    (db : Db)
    → AccountsValid db
    → MessagesValid db
    → AccountsValid (f db).1 × MessagesValid (f db).1

pub on_db-ServerInv :
    {A : Type 0} (f : Db → A × Db)
    → KeepsTables f
    → (w : World) → ServerInv w
    → ServerInv (on_db f w).1
unfolding on_db
on_db-ServerInv f k w v =
    let (a, m) = k w.db v.accounts v.messages in db-ServerInv w (f w.db).1 a m v

pub register_user-tables :
    (hasher : Bytes → ℕ) (o : Outcome) (name password : Bytes)
    → KeepsTables (register_user hasher o name password)
register_user-tables hasher o name password db a m = (
  register_user-AccountsValid hasher o name password db a,
  register_user-MessagesValid hasher o name password db m,
)

pub add_friend-tables : (o : Outcome) (a b : ℤ) → KeepsTables (add_friend o a b)
add_friend-tables o a b db v m =
    (add_friend-AccountsValid o a b db v, add_friend-MessagesValid o a b db m)

pub save_message-tables :
    (o : Outcome) (a b : ℤ) (content timestamp : Bytes)
    → KeepsTables (save_message o a b content timestamp)
save_message-tables o a b content timestamp db v m = (
  save_message-AccountsValid o a b content timestamp db v,
  save_message-MessagesValid o a b content timestamp db m,
)

pub get_offline_messages-tables : (o : Outcome) (uid : ℤ) → KeepsTables (get_offline_messages o uid)
get_offline_messages-tables o uid db v m =
    (get_offline_messages-AccountsValid o uid db v, get_offline_messages-MessagesValid o uid db m)

-- The uid of a login is a row's, so it is positive.
find_user-pos :
    (name : Bytes) (low high : ℕ) (us : List User) (u : User)
    → 1 ≤ low
    → Uids low high us
    → find_user name us ≡ some u
    → 1 ≤ u.uid
unfolding find_user
find_user-pos name low high [] u h v e = cc
find_user-pos name low high (x ∷ us) u h v e =
    ground (arith, find_user-pos name (x.uid + 1) high us u)

pub login_user-pos :
    (hasher : Bytes → ℕ) (o : Outcome) (name password : Bytes) (uid : ℤ) (db : Db)
    → AccountsValid db
    → login_user hasher o name password db ≡ (true, uid)
    → pos 0 <ℤ uid
unfolding login_user
login_user-pos hasher o name password uid db v e =
    elim (Option-cases (find_user (c_str name) db.users)) [
      | inl missing ↦ absurd (ground (arith, missing))
      | inr (u, found) ↦ ground (arith, found, find_user-pos (c_str name) 1 db.next_uid db.users u)
    ]
