-- ===== src/World/Tests.antt =====
-- The shared state at two sessions.
use coroutine_server.Prelude.{
  ◌≡◌, ◌==◌, refl, true, false, none, [], ◌∷◌, codes, ℤ, pos, if◌then◌else◌, arith,
}
use coroutine_server.Session
use coroutine_server.Online.{lookup}
use coroutine_server.World.{World, close, set_login_uid, add_online}
use coroutine_server.World.Race.{close_begin, close_end, close_end-race}

abbrev open_session : ℤ → Session.Session
open_session uid = record {
  uuid = codes "u";
  login_uid = uid;
  b_stop = false;
  socket_open = true;
  send_que = [];
  writing = none;
  sent = [];
  owned = true;
}

-- The session 0 is logged in as 7, the session 1 is open.
abbrev two_open : World
two_open = record {
  sessions = λ s. open_session (if s == 0 then pos 7 else pos 0);
  expired = λ s. false;
  online = (pos 7, 0) ∷ [];
  active = [];
  db = record { users = []; friends = []; messages = []; next_uid = 8; next_msg_id = 1 };
}

close_end-race_example :
    let (taken, begun) = close_begin 0 two_open in
    let bound = add_online (pos 7) 1 (set_login_uid 1 (pos 7) (close 0 begun)) in
    let ended = close_end taken bound in
    (lookup (pos 7) ended.online ≡ none)
    × ((ended.sessions 1).b_stop ≡ false)
    × ((ended.sessions 1).login_uid ≡ pos 7)
close_end-race_example =
    close_end-race 0 1 (pos 7) two_open (ground arith) (omega arith) refl refl refl
