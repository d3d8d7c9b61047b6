-- ===== src/Db/Mailbox/Handed.antt =====
-- Each letter is handed out once: the letters that the answers of a row of operations hand out to a
-- uid, and those that stay in its box.
use coroutine_server.Prelude.{
  ℕ, ◌+◌, ◌≡◌, ap, ◌∙◌, false, List, [], ◌∷◌, ◌++◌, append_assoc, append-nil, Bytes, arith, ℤ,
  ◌==ℤ◌, ==ℤ_iff, c_str, if◌then◌else◌,
}
use coroutine_server.Db.{Db, Message, Outcome, pending}
use coroutine_server.Db.Messages.{Healthy}
use coroutine_server.Db.Mailbox.{
  Mail, Op, saves, pulls, Answer, saved, pulled, put, take_all, replay, run, mail, run_refines,
}

-- What the answers hand out to a uid.
abbrev pub handed : ℤ → List Answer → List Message
handed uid [] = []
handed uid (saved id ∷ answers) = handed uid answers
handed uid (pulled other rows ∷ answers) =
    (if other ==ℤ uid then rows else []) ++ handed uid answers

-- The letters to a uid that the operations put, with their keys from `next` on.
abbrev pub letters : ℤ → ℕ → List Op → List Message
letters uid next [] = []
letters uid next (pulls other ∷ ops) = letters uid next ops
letters uid next (saves from_uid to_uid content timestamp ∷ ops) =
    let m : Mail = record { box = λ _. []; next = next } in
    let m' = (put from_uid to_uid content timestamp m).1 in m'.box uid ++ letters uid m'.next ops

put-letters :
    (from_uid to_uid uid : ℤ) (content timestamp : Bytes) (m : Mail) (rest : ℤ → ℕ → List Message)
    → let m' = (put from_uid to_uid content timestamp m).1 in
      let e : Mail = record { box = λ _. []; next = m.next } in
      let e' = (put from_uid to_uid content timestamp e).1 in
      m'.box uid ++ rest uid m'.next ≡ m.box uid ++ (e'.box uid ++ rest uid e'.next)
put-letters from_uid to_uid uid content timestamp m rest = ground (
  arith,
  append_assoc (m.box uid)
      (if to_uid ==ℤ uid
        then record {
          msg_id = m.next;
          from_uid = from_uid;
          to_uid = to_uid;
          content = c_str content;
          timestamp = c_str timestamp;
          delivered = false;
        }
          ∷ []
        else [])
      (rest uid (m.next + 1)),
)

put-handed :
    (from_uid to_uid uid : ℤ) (content timestamp : Bytes) (m : Mail) (answers : List Answer)
    → handed uid ((put from_uid to_uid content timestamp m).0 ∷ answers) ≡ handed uid answers
put-handed from_uid to_uid uid content timestamp m answers = ground arith

take_all-handed :
    (uid other : ℤ) (m : Mail) (answers : List Answer) (rest tail : List Message)
    → handed uid answers ++ rest ≡ (take_all other m).1.box uid ++ tail
    → handed uid ((take_all other m).0 ∷ answers) ++ rest ≡ m.box uid ++ tail
take_all-handed uid other m answers rest tail e = ground (
  arith,
  e,
  ==ℤ_iff uid other,
  ==ℤ_iff other uid,
  append_assoc (m.box other) (handed uid answers) rest,
)

take_all-next : (other : ℤ) (m : Mail) → (take_all other m).1.next ≡ m.next
take_all-next other m = ground arith

replay-handed :
    (uid : ℤ) (ops : List Op) (m : Mail)
    → let (answers, last) = replay ops m in
      handed uid answers ++ last.box uid ≡ m.box uid ++ letters uid m.next ops
unfolding replay
replay-handed uid [] m = ground (arith, append-nil (m.box uid))
replay-handed uid (saves from_uid to_uid content timestamp ∷ ops) m =
    let m' = (put from_uid to_uid content timestamp m).1 in
    let (answers, last) = replay ops m' in
    ap (λ (ms : List Message). ms ++ last.box uid)
      (put-handed from_uid to_uid uid content timestamp m answers)
    ∙ replay-handed uid ops m'
    ∙ put-letters from_uid to_uid uid content timestamp m (λ u n. letters u n ops)
replay-handed uid (pulls other ∷ ops) m =
    let m' = (take_all other m).1 in
    let (answers, last) = replay ops m' in
    take_all-handed uid other m answers (last.box uid) (letters uid m.next ops) (
      replay-handed uid ops m'
      ∙ ap (λ (n : ℕ). m'.box uid ++ letters uid n ops) (take_all-next other m))

-- While SQLite makes no error, any sequence of saves and pulls hands out to a uid, in order and each
-- once, the messages that were pending for it and those saved for it, up to those still pending.
pub run-handed :
    (os : ℕ → Outcome) (k : ℕ) (ops : List Op) (uid : ℤ) (db : Db)
    → ((j : ℕ) → Healthy (os j))
    → let (answers, db') = run os k ops db in
      handed uid answers ++ pending uid db'.messages
      ≡ pending uid db.messages ++ letters uid db.next_msg_id ops
run-handed os k ops uid db h =
    let same = run_refines os k ops db h in
    ap (λ (r : List Answer × Mail). handed uid r.0 ++ r.1.box uid) same
    ∙ replay-handed uid ops (mail db)
