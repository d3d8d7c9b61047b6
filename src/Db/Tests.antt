-- ===== src/Db/Tests.antt =====
-- The database at concrete rows.
use coroutine_server.Prelude.{
  ◌≡◌, refl, true, false, ◌==◌, not, none, some, List, [], ◌∷◌, ◌++◌, Bytes, codes, c_str, bytes_eq,
  length, pos, arith, take, ◌↔◌,
}
use coroutine_server.Db.{
  User, Message, Db, Outcome, register_user, login_user, add_friend, get_friend_list, contains,
  save_message, get_offline_messages, find_user, count_users, are_friends, pending, simple_hash,
}
use coroutine_server.Db.Users.{login_user_iff, AccountsValid}
use coroutine_server.Db.Friends.{get_friend_list_lem, Answers}
use coroutine_server.Db.Friendships.{
  Change, registers, befriends, changes, FriendshipsValid, changes-FriendshipsValid,
}
use coroutine_server.Db.Graph.{
  Fine, Query, asks, lists, graph, answer_all, all_on_graph, answer_all-all_on_graph,
}
use coroutine_server.Db.Membership.{has_uid}
use coroutine_server.Db.Messages.{Healthy, get_offline_messages-partial, MessagesValid}
use coroutine_server.Logic.Monad.{ok}
use coroutine_server.Db.Schema.{File, Holds, new_file, db_manager, db_manager-Holds}
use coroutine_server.Db.Schema
use coroutine_server.Db.Mailbox.{Op, saves, pulls, replay, run, mail, run_refines}
use coroutine_server.Db.Mailbox.Handed.{handed, letters, run-handed}

-- SQLite makes no error, and a UNION yields its rows as they stand.
abbrev pub fine : Outcome
fine = record { prepare = λ k. true; runs = λ k. true; fetched = none; arrange = λ xs. xs }

-- An error ends the SELECT after one row.
abbrev pub cut : Outcome
cut = record fine { fetched = some 1 }

fine-Answers : Answers fine
fine-Answers = record { prepared = refl; complete = refl; same_rows = λ x xs. refl }

fine-Healthy : Healthy fine
fine-Healthy = record { prepared = λ k. refl; ran = λ k. refl; complete = refl }

abbrev ann : Bytes
ann = codes "ann"

abbrev bob : Bytes
bob = codes "bob"

abbrev ann_row : User
ann_row = record { uid = 1; username = ann; password_hash = simple_hash length (codes "secret") }

abbrev bob_row : User
bob_row = record { uid = 2; username = bob; password_hash = simple_hash length (codes "hidden") }

abbrev hi : Message
hi = record {
  msg_id = 1;
  from_uid = pos 1;
  to_uid = pos 2;
  content = codes "hi";
  timestamp = codes "10:00";
  delivered = false;
}

abbrev hello : Message
hello = record hi { msg_id = 2; content = codes "hello" }

abbrev no_rows : Db
no_rows = record { users = []; friends = []; messages = []; next_uid = 1; next_msg_id = 1 }

abbrev two_users : Db
two_users = record no_rows { users = ann_row ∷ bob_row ∷ []; next_uid = 3 }

abbrev two_friends : Db
two_friends = record two_users { friends = record { uid = pos 1; friend_uid = pos 2 } ∷ [] }

abbrev pub two_messages : Db
two_messages = record two_users { messages = hi ∷ hello ∷ []; next_msg_id = 3 }

no_rows-AccountsValid : AccountsValid no_rows
no_rows-AccountsValid = record { uids = ground arith; names = tt }

two_users-AccountsValid : AccountsValid two_users
unfolding find_user bytes_eq
two_users-AccountsValid = record { uids = ground arith; names = (refl, (refl, tt)) }

two_messages-MessagesValid : MessagesValid two_messages
two_messages-MessagesValid = record { keys = ground arith; positive = ground arith }

register_ann :
    register_user length fine ann (codes "secret") no_rows
    ≡ (true, record no_rows { users = ann_row ∷ []; next_uid = 2 })
unfolding register_user simple_hash find_user c_str
register_ann = refl

befriend_two : add_friend fine (pos 1) (pos 2) two_users ≡ (true, two_friends)
unfolding add_friend are_friends count_users
befriend_two = refl

save_hi :
    save_message fine (pos 1) (pos 2) (codes "hi") (codes "10:00") no_rows
    ≡ (pos 1, record no_rows { messages = hi ∷ []; next_msg_id = 2 })
unfolding save_message c_str
save_hi = refl

find_ann : find_user ann two_users.users ≡ some ann_row
unfolding find_user bytes_eq
find_ann = refl

login_user_iff_example : (login_user length fine ann (codes "wrong") two_users ≡ (true, pos 1)) ↔ (
    (u : User) × (find_user ann two_users.users ≡ some u)
    × (u.password_hash ≡ simple_hash length (codes "wrong"))
    × (pos 1 ≡ pos u.uid))
unfolding c_str
login_user_iff_example =
    login_user_iff length fine ann (codes "wrong") (pos 1) two_users refl refl refl refl

friends_two : are_friends (pos 2) (pos 1) two_friends.friends ≡ true
unfolding are_friends
friends_two = refl

get_offline_messages-partial_example :
    let (rows, db') = get_offline_messages cut (pos 2) two_messages in
    (rows ≡ take 1 (pending (pos 2) two_messages.messages)) × (pending (pos 2) db'.messages ≡ [])
get_offline_messages-partial_example =
    get_offline_messages-partial cut 1 0 two_messages refl refl refl refl

abbrev mails : List Op
mails =
    saves (pos 1) (pos 2) (codes "hi") (codes "10:00")
    ∷ pulls (pos 2)
    ∷ saves (pos 2) (pos 2) (codes "note") (codes "10:01")
    ∷ pulls (pos 1)
    ∷ []

run_refines_example :
    let (answers, db') = run (λ k. fine) 0 mails two_messages in
    (answers, mail db') ≡ replay mails (mail two_messages)
run_refines_example = run_refines (λ k. fine) 0 mails two_messages λ k. fine-Healthy

run-handed_example :
    let (answers, db') = run (λ k. fine) 0 mails two_messages in
    handed (pos 2) answers ++ pending (pos 2) db'.messages
    ≡ pending (pos 2) two_messages.messages ++ letters (pos 2) two_messages.next_msg_id mails
run-handed_example = run-handed (λ k. fine) 0 mails (pos 2) two_messages λ k. fine-Healthy

-- A file that already has the two users; the index on friends cannot be made.
abbrev kept_file : File
kept_file = record {
  users = some two_users.users;
  friends = some [];
  messages = some [];
  next_uid = two_users.next_uid;
  next_msg_id = two_users.next_msg_id;
  indices = [];
}

kept_file-Holds : Holds two_users kept_file
kept_file-Holds = record {
  users = refl;
  friends = refl;
  messages = refl;
  next_uid = refl;
  next_msg_id = refl;
}

db_manager-Holds_example :
    (Holds two_users kept_file
      → Holds two_users (db_manager true (λ k. not (k == 4)) kept_file).file)
    × ((db_manager true (λ k. not (k == 4)) new_file).result ≡ ok tt
        → Holds Schema.no_rows (db_manager true (λ k. not (k == 4)) new_file).file)
db_manager-Holds_example = db_manager-Holds true (λ k. not (k == 4)) two_users kept_file

restarted : Holds two_users (db_manager true (λ k. not (k == 4)) kept_file).file
restarted = (db_manager-Holds true (λ k. not (k == 4)) two_users kept_file).0 kept_file-Holds

-- Ann and Bob register and become friends; a second request changes nothing.
abbrev becoming_friends : List (Outcome × Change)
becoming_friends =
    (fine, registers ann (codes "secret"))
    ∷ (fine, registers bob (codes "hidden"))
    ∷ (fine, befriends (pos 1) (pos 2))
    ∷ (fine, befriends (pos 2) (pos 1))
    ∷ []

no_rows-FriendshipsValid : FriendshipsValid no_rows
no_rows-FriendshipsValid = ground arith

changes-FriendshipsValid_example : FriendshipsValid (changes length becoming_friends no_rows)
changes-FriendshipsValid_example =
    changes-FriendshipsValid length becoming_friends no_rows (refl, (refl, tt))
      no_rows-FriendshipsValid

-- Ann asks Bob, Bob finds her on his list, and asks her.
fine-Fine : Fine fine
fine-Fine = record { healthy = fine-Healthy; answers = fine-Answers }

abbrev meeting : List (Outcome × Query)
meeting = (fine, asks (pos 1) (pos 2)) ∷ (fine, lists 1 (pos 1)) ∷ (fine, asks (pos 2) (pos 1)) ∷ []

answer_all-all_on_graph_example :
    let (bs, db') = answer_all meeting two_users in
    (bs, graph db')
    ≡ all_on_graph
        (λ c. has_uid c two_users.users)
        (asks (pos 1) (pos 2) ∷ lists 1 (pos 1) ∷ asks (pos 2) (pos 1) ∷ [])
        (graph two_users)
answer_all-all_on_graph_example =
    answer_all-all_on_graph meeting two_users (fine-Fine, (fine-Fine, (fine-Fine, tt)))
      two_users-AccountsValid

get_friend_list_lem_example :
    contains (pos 1) (get_friend_list fine (pos 2) two_friends)
    ≡ are_friends (pos 2) (pos 1) two_friends.friends
get_friend_list_lem_example = get_friend_list_lem fine 1 (pos 1) two_friends fine-Answers
