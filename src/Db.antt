-- ===== src/Db.antt =====
-- `DBManager` (CoroutineServer/DBManager.h and DBManager.cpp): the three tables and the SQL
-- statements over them. SQLite itself decides whether a call of `sqlite3_prepare_v2` or
-- `sqlite3_step` succeeds, how many rows a SELECT yields before it stops, and the order of a UNION:
-- that is the argument `Outcome` of each method. A refused statement changes no table.
pub mod Users
pub mod Friends
pub mod Membership
pub mod Friendships
pub mod Graph
pub mod Messages
pub mod Mailbox
pub mod Schema
mod Tests
use coroutine_server.Prelude.{
  ℕ, zero, suc, ◌+◌, ◌/◌, ◌%◌, codes, Bool, true, false, ◌&&◌, ◌||◌, not, Option, none, some, List,
  [], ◌∷◌, ◌++◌, Bytes, ℤ, pos, negsuc, leb_ℤ, ◌==ℤ◌, ltb, ◌==◌, bytes_eq, c_str, if◌then◌else◌,
  length, take, map,
}

-- CREATE TABLE users; `created_at` is never read.
pub record User : Type 0 where
  pub uid : ℕ
  pub username : Bytes
  pub password_hash : Bytes

-- CREATE TABLE friends
pub record Friend : Type 0 where
  pub uid : ℤ
  pub friend_uid : ℤ

-- CREATE TABLE messages; `msg_type` is 0 in every row.
pub record Message : Type 0 where
  pub msg_id : ℕ
  pub from_uid : ℤ
  pub to_uid : ℤ
  pub content : Bytes
  pub timestamp : Bytes
  pub delivered : Bool

-- The rows in the order of their keys, and the next keys that AUTOINCREMENT gives.
pub record Db : Type 0 where
  pub users : List User
  pub friends : List Friend
  pub messages : List Message
  pub next_uid : ℕ
  pub next_msg_id : ℕ

pub record Outcome : Type 0 where
  -- Whether the call of `sqlite3_prepare_v2` with this number in the method returns SQLITE_OK.
  pub prepare : ℕ → Bool
  -- Whether the first `sqlite3_step` of that statement runs without an error.
  pub runs : ℕ → Bool
  -- How many rows a loop over a SELECT gets before an error ends it; `none` if there is no error.
  pub fetched : Option ℕ
  -- The order in which UNION yields its rows.
  pub arrange : List ℤ → List ℤ

-- The rows that `while (sqlite3_step(stmt) == SQLITE_ROW)` sees.
abbrev pub fetch {ℓ} : {A : Type ℓ} → Option ℕ → List A → List A
fetch none rows = rows
fetch (some n) rows = take n rows

abbrev pub is_empty {ℓ} : {A : Type ℓ} → List A → Bool
is_empty [] = true
is_empty (_ ∷ _) = false

-- The digits that `std::hex` prints, padded to `k` by `setw` and `setfill`.
abbrev pub hex_digit : ℕ → ℕ
hex_digit d = if ltb d 10 then 48 + d else 87 + d

unfoldable pub hex : ℕ → ℕ → Bytes
hex zero n = []
hex (suc k) n = hex k (n / 16) ++ hex_digit (n % 16) ∷ []

abbrev pub salt : Bytes
salt = codes "CoroutineServer_IM_SALT_2024"

-- `SimpleHash`; `hasher` is `std::hash<std::string>`.
unfoldable pub simple_hash : (Bytes → ℕ) → Bytes → Bytes
unfolding hex
simple_hash hasher input = hex 16 (hasher (salt ++ input))

-- SELECT … FROM users WHERE username = ?
unfoldable pub find_user : Bytes → List User → Option User
find_user name [] = none
find_user name (u ∷ us) = if bytes_eq u.username name then some u else find_user name us

abbrev pub is_some {ℓ} : {A : Type ℓ} → Option A → Bool
is_some none = false
is_some (some _) = true

-- SELECT COUNT(*) FROM users WHERE uid = ? OR uid = ?
unfoldable pub count_users : ℤ → ℤ → List User → ℕ
count_users a b [] = 0
count_users a b (u ∷ us) =
    (if pos u.uid ==ℤ a || pos u.uid ==ℤ b then 1 else 0) + count_users a b us

-- INSERT INTO users; the UNIQUE username can refuse it.
unfoldable pub insert_user : Bytes → Bytes → Db → Option Db
insert_user name hash db =
    if is_some (find_user name db.users)
    then none
    else some (record db {
      users = db.users ++ record { uid = db.next_uid; username = name; password_hash = hash } ∷ [];
      next_uid = db.next_uid + 1;
    })

-- SELECT id FROM friends WHERE (uid = ? AND friend_uid = ?) OR (uid = ? AND friend_uid = ?)
unfoldable pub are_friends : ℤ → ℤ → List Friend → Bool
are_friends a b [] = false
are_friends a b (f ∷ fs) =
    ((f.uid ==ℤ a && f.friend_uid ==ℤ b) || (f.uid ==ℤ b && f.friend_uid ==ℤ a))
    || are_friends a b fs

unfoldable pub has_pair : ℤ → ℤ → List Friend → Bool
has_pair a b [] = false
has_pair a b (f ∷ fs) = (f.uid ==ℤ a && f.friend_uid ==ℤ b) || has_pair a b fs

-- INSERT INTO friends; UNIQUE(uid, friend_uid) can refuse it.
unfoldable pub insert_friend : ℤ → ℤ → Db → Option Db
unfolding has_pair
insert_friend a b db =
    if has_pair a b db.friends
    then none
    else some (record db { friends = db.friends ++ record { uid = a; friend_uid = b } ∷ [] })

-- The two SELECTs of the friend list.
unfoldable pub friends_to : ℤ → List Friend → List ℤ
friends_to a [] = []
friends_to a (f ∷ fs) =
    let rest = friends_to a fs in if f.uid ==ℤ a then f.friend_uid ∷ rest else rest

unfoldable pub friends_from : ℤ → List Friend → List ℤ
friends_from a [] = []
friends_from a (f ∷ fs) =
    let rest = friends_from a fs in if f.friend_uid ==ℤ a then f.uid ∷ rest else rest

unfoldable pub contains : ℤ → List ℤ → Bool
contains a [] = false
contains a (x ∷ xs) = x ==ℤ a || contains a xs

-- UNION keeps one of equal rows.
unfoldable pub distinct : List ℤ → List ℤ
unfolding contains
distinct [] = []
distinct (x ∷ xs) = let rest = distinct xs in if contains x rest then rest else x ∷ rest

abbrev pub is_pending : ℤ → Message → Bool
is_pending uid m = m.to_uid ==ℤ uid && not m.delivered

-- SELECT … FROM messages WHERE to_uid = ? AND delivered = 0 ORDER BY msg_id ASC
unfoldable pub pending : ℤ → List Message → List Message
pending uid [] = []
pending uid (m ∷ ms) = let rest = pending uid ms in if is_pending uid m then m ∷ rest else rest

-- UPDATE messages SET delivered = 1 WHERE to_uid = ? AND delivered = 0
unfoldable pub mark_delivered : ℤ → List Message → List Message
mark_delivered uid [] = []
mark_delivered uid (m ∷ ms) =
    (if is_pending uid m then record m { delivered = true } else m) ∷ mark_delivered uid ms

module _ (hasher : Bytes → ℕ) where
  -- `RegisterUser`
  unfoldable pub register_user : Outcome → Bytes → Bytes → Db → Bool × Db
  unfolding insert_user
  register_user o username password db =
      if is_empty username || is_empty password || not (o.prepare 0)
      then (false, db)
      else if o.runs 0 && is_some (find_user (c_str username) db.users)
      then (false, db)
      else if not (o.prepare 1) || not (o.runs 1)
      then (false, db)
      else elim (insert_user (c_str username) (c_str (simple_hash hasher password)) db) [
        | none ↦ (false, db)
        | some db' ↦ (true, db')
      ]

  -- `LoginUser`
  unfoldable pub login_user : Outcome → Bytes → Bytes → Db → Bool × ℤ
  login_user o username password db =
      if is_empty username || is_empty password || not (o.prepare 0) || not (o.runs 0)
      then (false, pos 0)
      else elim (find_user (c_str username) db.users) [
        | none ↦ (false, pos 0)
        | some u ↦
            if bytes_eq (simple_hash hasher password) u.password_hash
            then (true, pos u.uid)
            else (false, pos 0)
      ]

-- `AddFriend`
unfoldable pub add_friend : Outcome → ℤ → ℤ → Db → Bool × Db
unfolding insert_friend
add_friend o uid friend_uid db =
    if leb_ℤ uid (pos 0) || leb_ℤ friend_uid (pos 0) || uid ==ℤ friend_uid || not (o.prepare 0)
    then (false, db)
    else if ltb (if o.runs 0 then count_users uid friend_uid db.users else 0) 2 || not (o.prepare 1)
    then (false, db)
    else if (o.runs 1 && are_friends uid friend_uid db.friends)
        || not (o.prepare 2)
        || not (o.runs 2)
    then (false, db)
    else elim (insert_friend uid friend_uid db) [ none ↦ (false, db) | some db' ↦ (true, db') ]

-- `GetFriendList`
unfoldable pub get_friend_list : Outcome → ℤ → Db → List ℤ
get_friend_list o uid db =
    if leb_ℤ uid (pos 0) || not (o.prepare 0)
    then []
    else fetch o.fetched
        (o.arrange (distinct (friends_to uid db.friends ++ friends_from uid db.friends)))

-- `SaveMessage`: the new key, or -1.
unfoldable pub save_message : Outcome → ℤ → ℤ → Bytes → Bytes → Db → ℤ × Db
save_message o from_uid to_uid content timestamp db =
    if leb_ℤ from_uid (pos 0)
      || leb_ℤ to_uid (pos 0)
      || is_empty content
      || not (o.prepare 0)
      || not (o.runs 0)
    then (negsuc 0, db)
    else let row : Message = record {
      msg_id = db.next_msg_id;
      from_uid = from_uid;
      to_uid = to_uid;
      content = c_str content;
      timestamp = c_str timestamp;
      delivered = false;
    } in
      (
        pos db.next_msg_id,
        record db { messages = db.messages ++ row ∷ []; next_msg_id = db.next_msg_id + 1 },
      )

-- `GetOfflineMessages`: the UPDATE marks every pending message, also one that the loop did not get.
unfoldable pub get_offline_messages : Outcome → ℤ → Db → List Message × Db
get_offline_messages o uid db =
    if leb_ℤ uid (pos 0) || not (o.prepare 0)
    then ([], db)
    else let rows = fetch o.fetched (pending uid db.messages) in
      if is_empty rows || not (o.prepare 1) || not (o.runs 1)
      then (rows, db)
      else (rows, record db { messages = mark_delivered uid db.messages })
