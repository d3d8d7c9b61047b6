-- ===== src/Db/Mailbox.antt =====
-- What the table of messages promises its users: a mailbox for each uid. While SQLite makes no
-- error, `SaveMessage` and `GetOfflineMessages` behave as puts and takes on the mailboxes.
pub mod Handed
use coroutine_server.Prelude.{
  ℕ, zero, suc, ◌+◌, ◌≡◌, refl, ap, ◌∙◌, false, ◌||◌, List, [], ◌∷◌, ◌++◌, append_assoc, append-nil,
  Bytes, arith, ℤ, pos, negsuc, leb_ℤ, ◌==ℤ◌, ==ℤ_iff, c_str, if◌then◌else◌,
}
use coroutine_server.Db.{
  Db, Message, Outcome, is_empty, pending, save_message, get_offline_messages,
}
use coroutine_server.Db.Messages.{Healthy, new_message, pending-append, get_offline_messages_lem}

-- The mailboxes, each oldest first, and the next key.
pub record Mail : Type 0 where
  pub box : ℤ → List Message
  pub next : ℕ

pub data Op : Type 0 where
  saves : ℤ → ℤ → Bytes → Bytes → Op
  pulls : ℤ → Op

pub data Answer : Type 0 where
  saved : ℤ → Answer
  pulled : ℤ → List Message → Answer

-- A put: a new letter at the end of the recipient's box.
abbrev pub put : ℤ → ℤ → Bytes → Bytes → Mail → Answer × Mail
put from_uid to_uid content timestamp m =
    if leb_ℤ from_uid (pos 0) || leb_ℤ to_uid (pos 0) || is_empty content
    then (saved (negsuc 0), m)
    else let letter : Message = record {
      msg_id = m.next;
      from_uid = from_uid;
      to_uid = to_uid;
      content = c_str content;
      timestamp = c_str timestamp;
      delivered = false;
    } in
      (
        saved (pos m.next),
        record {
          box = λ uid. m.box uid ++ (if to_uid ==ℤ uid then letter ∷ [] else []);
          next = m.next + 1;
        },
      )

-- A take: the whole box, which is left empty.
abbrev pub take_all : ℤ → Mail → Answer × Mail
take_all uid m = if leb_ℤ uid (pos 0) then (pulled uid [], m) else (
  pulled uid (m.box uid),
  record m { box = λ other. if other ==ℤ uid then [] else m.box other },
)

abbrev pub perform : Op → Mail → Answer × Mail
perform (saves from_uid to_uid content timestamp) m = put from_uid to_uid content timestamp m
perform (pulls uid) m = take_all uid m

-- The operations in a row, with their answers.
unfoldable pub replay : List Op → Mail → List Answer × Mail
replay [] m = ([], m)
replay (op ∷ ops) m =
    let (a, m') = perform op m in let (more, last) = replay ops m' in (a ∷ more, last)

-- The same operations on the database; `os k` is SQLite's behaviour in operation `k`.
abbrev pub call : Outcome → Op → Db → Answer × Db
call o (saves from_uid to_uid content timestamp) db =
    let (id, db') = save_message o from_uid to_uid content timestamp db in (saved id, db')
call o (pulls uid) db = let (rows, db') = get_offline_messages o uid db in (pulled uid rows, db')

unfoldable pub run : (ℕ → Outcome) → ℕ → List Op → Db → List Answer × Db
run os k [] db = ([], db)
run os k (op ∷ ops) db =
    let (a, db') = call (os k) op db in
    let (more, last) = run os (k + 1) ops db' in (a ∷ more, last)

-- The mailboxes that the table of messages holds.
abbrev pub mail : Db → Mail
mail db = record { box = λ uid. pending uid db.messages; next = db.next_msg_id }

mail_ext : (m m' : Mail) → ((uid : ℤ) → m.box uid ≡ m'.box uid) → m.next ≡ m'.next → m ≡ m'
mail_ext m m' b n = λ i. record { box = λ uid. b uid i; next = n i }

-- One operation: its answer and the mailboxes after it.
put_answer :
    (o : Outcome) (from_uid to_uid : ℤ) (content timestamp : Bytes) (db : Db)
    → Healthy o
    → saved (save_message o from_uid to_uid content timestamp db).0
      ≡ (put from_uid to_uid content timestamp (mail db)).0
unfolding save_message
put_answer o from_uid to_uid content timestamp db h = ground (arith, h.prepared 0, h.ran 0)

put_box :
    (o : Outcome) (from_uid to_uid uid : ℤ) (content timestamp : Bytes) (db : Db)
    → Healthy o
    → pending uid (save_message o from_uid to_uid content timestamp db).1.messages
      ≡ (put from_uid to_uid content timestamp (mail db)).1.box uid
unfolding save_message
put_box o from_uid to_uid uid content timestamp db h = ground (
  arith,
  h.prepared 0,
  h.ran 0,
  append-nil (pending uid db.messages),
  pending-append uid db.messages (new_message from_uid to_uid content timestamp db),
)

put_next :
    (o : Outcome) (from_uid to_uid : ℤ) (content timestamp : Bytes) (db : Db)
    → Healthy o
    → (save_message o from_uid to_uid content timestamp db).1.next_msg_id
      ≡ (put from_uid to_uid content timestamp (mail db)).1.next
unfolding save_message
put_next o from_uid to_uid content timestamp db h = ground (arith, h.prepared 0, h.ran 0)

take_rows :
    (o : Outcome) (uid : ℤ) (db : Db)
    → Healthy o
    → pulled uid (get_offline_messages o uid db).0 ≡ (take_all uid (mail db)).0
unfolding get_offline_messages
take_rows o (pos zero) db h = refl
take_rows o (pos (suc n)) db h = ground (arith, (get_offline_messages_lem o n (pos 0) db h).0)
take_rows o (negsuc n) db h = ground arith

take_box :
    (o : Outcome) (uid other : ℤ) (db : Db)
    → Healthy o
    → pending other (get_offline_messages o uid db).1.messages
      ≡ (take_all uid (mail db)).1.box other
take_box o (pos zero) other db h = unfold get_offline_messages in refl
take_box o (pos (suc n)) other db h = ground (arith, (get_offline_messages_lem o n other db h).1)
take_box o (negsuc n) other db h = unfold get_offline_messages in ground arith

take_next :
    (o : Outcome) (uid : ℤ) (db : Db)
    → (get_offline_messages o uid db).1.next_msg_id ≡ (take_all uid (mail db)).1.next
unfolding get_offline_messages
take_next o uid db = ground arith

call_answer :
    (o : Outcome) (op : Op) (db : Db) → Healthy o → (call o op db).0 ≡ (perform op (mail db)).0
call_answer o (saves from_uid to_uid content timestamp) db h =
    put_answer o from_uid to_uid content timestamp db h
call_answer o (pulls uid) db h = take_rows o uid db h

mail-call :
    (o : Outcome) (op : Op) (db : Db) → Healthy o → mail (call o op db).1 ≡ (perform op (mail db)).1
mail-call o (saves from_uid to_uid content timestamp) db h =
    mail_ext _ _ (λ uid. put_box o from_uid to_uid uid content timestamp db h)
      (put_next o from_uid to_uid content timestamp db h)
mail-call o (pulls uid) db h =
    mail_ext _ _ (λ other. take_box o uid other db h) (take_next o uid db)

-- While SQLite makes no error, any sequence of saves and pulls has the answers of the mailboxes, and
-- leaves the database holding what the mailboxes hold.
pub run_refines :
    (os : ℕ → Outcome) (k : ℕ) (ops : List Op) (db : Db)
    → ((j : ℕ) → Healthy (os j))
    → let (answers, db') = run os k ops db in (answers, mail db') ≡ replay ops (mail db)
unfolding run replay
run_refines os k [] db h = refl
run_refines os k (op ∷ ops) db h =
    let ih = run_refines os (k + 1) ops (call (os k) op db).1 h in
    let a = call_answer (os k) op db (h k) in
    let m = mail-call (os k) op db (h k) in ground (arith, ih, a, m)
