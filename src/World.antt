-- ===== src/World.antt =====
-- The state that the server's objects share, and the calls between them: sessions (`CSession`), the
-- online map (`UserManager`), the active sessions (`CServer`) and the database (`DBManager`).
-- A session object is named by a number, its identity.
pub mod Logins
pub mod Steps
pub mod Race
mod Tests
use coroutine_server.Prelude.{
  ℕ, Bool, true, false, ◌||◌, ◌&&◌, not, Option, none, some, List, [], ◌∷◌, Bytes, ℤ, pos, ◌==ℤ◌,
  ◌==◌, to_short, bytes_eq, if◌then◌else◌,
}
use coroutine_server.Wire.Endian.{ByteOrder}
use coroutine_server.Session.{Session, end_write, handle_write, rest_of}
use coroutine_server.Session
use coroutine_server.Online.{Online, add_online_user, remove_online_user, get_session_by_uid}
use coroutine_server.Db.{Db}

pub record World : Type 0 where
  pub sessions : ℕ → Session
  -- The object is gone: weak pointers to it have expired.
  pub expired : ℕ → Bool
  pub online : Online
  -- `CServer::_sessions`, by uuid.
  pub active : List (Bytes × ℕ)
  pub db : Db

abbrev pub update {ℓ} : {A : Type ℓ} → (ℕ → A) → ℕ → A → ℕ → A
update f i a j = if i == j then a else f j

abbrev pub set_session : ℕ → Session → World → World
set_session sid s w = record w { sessions = update w.sessions sid s }

-- The end of `CSession::Close`: a uid that is not 0 is handed to `RemoveOnlineUser`.
abbrev pub logged_out : ℤ → World → World
logged_out uid w =
    if uid ==ℤ pos 0 then w else record w { online = remove_online_user uid w.online }

-- A method of the session that may log its user out, with the uid that it hands over.
unfoldable pub with_session : ℕ → (Session → Session × ℤ) → World → World
with_session sid f w = logged_out (f (w.sessions sid)).1 (set_session sid (f (w.sessions sid)).0 w)

-- `session->Close()`
unfoldable pub close : ℕ → World → World
unfolding with_session
close sid = with_session sid Session.close

-- `session->Send(msg, id)`
unfoldable pub send : ByteOrder → ℕ → Bytes → ℕ → World → World
send order sid msg id w = set_session sid (Session.send order msg (to_short id) (w.sessions sid)) w

-- `session->SetLoginUid(uid)`
unfoldable pub set_login_uid : ℕ → ℤ → World → World
set_login_uid sid uid w = set_session sid (Session.set_login_uid uid (w.sessions sid)) w

-- `UserManager::GetInstance().AddOnlineUser(uid, session)`
unfoldable pub add_online : ℤ → ℕ → World → World
add_online uid sid w = record w { online = add_online_user uid (some sid) w.online }

-- `UserManager::GetInstance().GetSessionByUid(uid)`
unfoldable pub get_session : ℤ → World → Option ℕ × World
get_session uid w =
    let (found, m) = get_session_by_uid w.expired uid w.online in (found, record w { online = m })

erase_session : Bytes → List (Bytes × ℕ) → List (Bytes × ℕ)
erase_session uuid [] = []
erase_session uuid ((u, s) ∷ m) = if bytes_eq u uuid then m else (u, s) ∷ erase_session uuid m

has_session : Bytes → List (Bytes × ℕ) → Bool
has_session uuid [] = false
has_session uuid ((u, s) ∷ m) = if bytes_eq u uuid then true else has_session uuid m

-- `CServer::ClearSession`
unfoldable pub clear_session : Bytes → World → World
unfolding erase_session
clear_session uuid w = record w { active = erase_session uuid w.active }

-- `CServer::HandleAccept`: `Start` spawns the read loop, whose steps come later; `insert` keeps an
-- entry that is there.
unfoldable pub handle_accept : ℕ → Bool → World → World
unfolding has_session
handle_accept sid failed w =
    if failed
    then w
    else let uuid = (w.sessions sid).uuid in
      if has_session uuid w.active then w else record w { active = (uuid, sid) ∷ w.active }

-- Every end of the read loop but `_b_stop`: `Close(); _server->ClearSession(_uuid);`.
unfoldable pub end_session : ℕ → World → World
unfolding close clear_session
end_session sid w = clear_session (w.sessions sid).uuid (close sid w)

-- `HandleWrite` when an outstanding write has completed or failed; both ways to close the session
-- clear it from the server too.
unfoldable pub finish_write : ℕ → Bool → World → World
finish_write sid failed w =
    let s = w.sessions sid in
    let ended = if failed then record s { writing = none } else end_write s.writing s in
    let w' = with_session sid (handle_write failed) (set_session sid ended w) in
    if failed || not s.owned && not (Session.is_empty (rest_of s.send_que))
    then clear_session s.uuid w'
    else w'

-- There is nothing to complete while no write is outstanding.
unfoldable pub write_done : ℕ → Bool → World → World
write_done sid failed w = elim (w.sessions sid).writing [
  | none ↦ w
  | some _ ↦ finish_write sid failed w
]

-- The last `shared_ptr` to the session goes: `~CSession` closes it.
unfoldable pub destroy : ℕ → World → World
unfolding close
destroy sid w = let w' = close sid w in record w' { expired = update w'.expired sid true }
