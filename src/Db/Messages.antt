-- ===== src/Db/Messages.antt =====
-- Messages: each one waits for its recipient until a pull marks it.
use coroutine_server.Prelude.{
  ℕ, suc, ◌+◌, ◌≤◌, ◌≡◌, true, false, none, some, List, [], ◌∷◌, ◌++◌, Bytes, arith, ℤ, pos, ◌==ℤ◌,
  ==ℤ_iff, ◌<ℤ◌, c_str, if◌then◌else◌, inl, inr, take, List-cases,
}
use coroutine_server.Db.{
  Db, Message, Outcome, is_empty, is_pending, pending, mark_delivered, save_message,
  get_offline_messages,
}

-- The row that `SaveMessage` adds.
abbrev pub new_message : ℤ → ℤ → Bytes → Bytes → Db → Message
new_message from_uid to_uid content timestamp db = record {
  msg_id = db.next_msg_id;
  from_uid = from_uid;
  to_uid = to_uid;
  content = c_str content;
  timestamp = c_str timestamp;
  delivered = false;
}

pub pending-append :
    (uid : ℤ) (ms : List Message) (m : Message)
    → pending uid (ms ++ m ∷ []) ≡ pending uid ms ++ (if is_pending uid m then m ∷ [] else [])
unfolding pending
pending-append uid [] m = ground arith
pending-append uid (x ∷ ms) m = ground (arith, pending-append uid ms m)

-- After an UPDATE nothing is pending for the uid, and the pending messages of others are the same.
pub pending-mark_delivered :
    (uid other : ℤ) (ms : List Message)
    → pending other (mark_delivered uid ms) ≡ (if other ==ℤ uid then [] else pending other ms)
unfolding pending mark_delivered
pending-mark_delivered uid other [] = ground arith
pending-mark_delivered uid other (m ∷ ms) = ground (
  arith,
  pending-mark_delivered uid other ms,
  ==ℤ_iff m.to_uid uid,
  ==ℤ_iff m.to_uid other,
  ==ℤ_iff other uid,
)

-- A message between users, with a text, is saved under the next key if SQLite runs the insert.
pub save_message-key :
    (o : Outcome) (from_uid : ℤ) (to_uid : ℕ) (content timestamp : Bytes) (db : Db)
    → pos 0 <ℤ from_uid
    → is_empty content ≡ false
    → o.prepare 0 ≡ true
    → o.runs 0 ≡ true
    → save_message o from_uid (pos (suc to_uid)) content timestamp db
      ≡ (pos db.next_msg_id, (save_message o from_uid (pos (suc to_uid)) content timestamp db).1)
unfolding save_message
save_message-key o from_uid to_uid content timestamp db h some_text p r = ground arith

-- What a successful `save_message` has written; its key is not negative.
save_message-saved :
    (o : Outcome) (from_uid to_uid : ℤ) (content timestamp : Bytes) (db db' : Db) (id : ℕ)
    → save_message o from_uid to_uid content timestamp db ≡ (pos id, db')
    → (id ≡ db.next_msg_id)
      × (db' ≡ record db {
        messages = db.messages ++ new_message from_uid to_uid content timestamp db ∷ [];
        next_msg_id = db.next_msg_id + 1;
      })
unfolding save_message
save_message-saved o from_uid to_uid content timestamp db db' id e = ground arith

-- A message that is saved becomes the last of its recipient's pending messages, under the key that
-- is returned, and nobody else's pending messages change.
pub pending-save_message :
    (o : Outcome) (from_uid to_uid uid : ℤ) (content timestamp : Bytes) (db db' : Db) (id : ℕ)
    → save_message o from_uid to_uid content timestamp db ≡ (pos id, db')
    → (id ≡ db.next_msg_id)
      × (pending uid db'.messages
          ≡ pending uid db.messages
            ++ (if to_uid ==ℤ uid
                then new_message from_uid to_uid content timestamp db ∷ []
                else []))
pending-save_message o from_uid to_uid uid content timestamp db db' id e =
    let (key, after) = save_message-saved o from_uid to_uid content timestamp db db' id e in
    (
      key,
      ground (
        arith,
        after,
        pending-append uid db.messages (new_message from_uid to_uid content timestamp db),
      ),
    )

-- SQLite runs the whole pull without an error.
pub record Healthy (o : Outcome) : Type 0 where
  pub prepared : (k : ℕ) → o.prepare k ≡ true
  pub ran : (k : ℕ) → o.runs k ≡ true
  pub complete : o.fetched ≡ none

-- A pull without errors returns exactly the pending messages of the uid, in the order of their
-- keys; afterwards none is pending for it, and the pending messages of every other uid are as
-- before.
pub get_offline_messages_lem :
    (o : Outcome) (n : ℕ) (other : ℤ) (db : Db)
    → Healthy o
    → let uid = pos (suc n) in
      let (rows, db') = get_offline_messages o uid db in
      (rows ≡ pending uid db.messages)
      × (pending other db'.messages ≡ (if other ==ℤ uid then [] else pending other db.messages))
unfolding get_offline_messages
get_offline_messages_lem o n other db h = elim (List-cases (pending (pos (suc n)) db.messages)) [
  | inl nothing ↦ ground (arith, h.prepared 0, h.complete, nothing, ==ℤ_iff other (pos (suc n)))
  | inr (m, more, e) ↦ ground (
    arith,
    h.prepared 0,
    h.prepared 1,
    h.ran 1,
    h.complete,
    e,
    pending-mark_delivered (pos (suc n)) other db.messages,
  )
]

-- When an error ends the SELECT after `k + 1` rows, those rows are returned, and yet no message is
-- pending afterwards: the rest has been marked delivered without being returned.
pub get_offline_messages-partial :
    (o : Outcome) (n k : ℕ) (db : Db)
    → o.prepare 0 ≡ true
    → o.prepare 1 ≡ true
    → o.runs 1 ≡ true
    → o.fetched ≡ some (suc k)
    → let uid = pos (suc n) in
      let (rows, db') = get_offline_messages o uid db in
      (rows ≡ take (suc k) (pending uid db.messages)) × (pending uid db'.messages ≡ [])
unfolding get_offline_messages
get_offline_messages-partial o n k db p q r f =
    elim (List-cases (pending (pos (suc n)) db.messages)) [
      | inl nothing ↦ ground (arith, nothing)
      | inr (m, more, e) ↦
          ground (arith, e, pending-mark_delivered (pos (suc n)) (pos (suc n)) db.messages)
    ]

-- The keys of the rows rise from 1 and stay below the next one.
abbrev pub Keys : ℕ → ℕ → List Message → Type 0
Keys low high [] = low ≤ high
Keys low high (m ∷ ms) = (low ≤ m.msg_id) × Keys (m.msg_id + 1) high ms

-- Every row is between positive uids.
abbrev pub PositiveUids : List Message → Type 0
PositiveUids [] = Unit {0}
PositiveUids (m ∷ ms) = (pos 0 <ℤ m.from_uid) × (pos 0 <ℤ m.to_uid) × PositiveUids ms

pub record MessagesValid (db : Db) : Type 0 where
  pub keys : Keys 1 db.next_msg_id db.messages
  pub positive : PositiveUids db.messages

Keys-append :
    (low : ℕ) (ms : List Message) (m : Message)
    → Keys low m.msg_id ms
    → Keys low (m.msg_id + 1) (ms ++ m ∷ [])
Keys-append low [] m h = (h, omega arith)
Keys-append low (x ∷ ms) m h = (h.0, Keys-append (x.msg_id + 1) ms m h.1)

PositiveUids-append :
    (ms : List Message) (m : Message)
    → pos 0 <ℤ m.from_uid
    → pos 0 <ℤ m.to_uid
    → PositiveUids ms
    → PositiveUids (ms ++ m ∷ [])
PositiveUids-append [] m f t h = (f, t, tt)
PositiveUids-append (x ∷ ms) m f t h = (h.0, h.1, PositiveUids-append ms m f t h.2)

Keys-mark_delivered :
    (uid : ℤ) (low high : ℕ) (ms : List Message)
    → Keys low high ms
    → Keys low high (mark_delivered uid ms)
unfolding mark_delivered
Keys-mark_delivered uid low high [] h = h
Keys-mark_delivered uid low high (m ∷ ms) h =
    ground (arith, Keys-mark_delivered uid (m.msg_id + 1) high ms h.1)

PositiveUids-mark_delivered :
    (uid : ℤ) (ms : List Message) → PositiveUids ms → PositiveUids (mark_delivered uid ms)
unfolding mark_delivered
PositiveUids-mark_delivered uid [] h = h
PositiveUids-mark_delivered uid (m ∷ ms) h = ground (arith, PositiveUids-mark_delivered uid ms h.2)

-- Saving a message, successful or not, keeps the keys of the rows ascending and their uids positive.
pub save_message-MessagesValid :
    (o : Outcome) (from_uid to_uid : ℤ) (content timestamp : Bytes) (db : Db)
    → MessagesValid db
    → MessagesValid (save_message o from_uid to_uid content timestamp db).1
unfolding save_message
save_message-MessagesValid o from_uid to_uid content timestamp db v =
    let m = new_message from_uid to_uid content timestamp db in
    ground (arith, Keys-append 1 db.messages m v.keys, PositiveUids-append db.messages m)

pub get_offline_messages-MessagesValid :
    (o : Outcome) (uid : ℤ) (db : Db)
    → MessagesValid db
    → MessagesValid (get_offline_messages o uid db).1
unfolding get_offline_messages
get_offline_messages-MessagesValid o uid db v = ground (
  arith,
  Keys-mark_delivered uid 1 db.next_msg_id db.messages v.keys,
  PositiveUids-mark_delivered uid db.messages v.positive,
)
