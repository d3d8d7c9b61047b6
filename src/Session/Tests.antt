-- ===== src/Session/Tests.antt =====
-- A session's send queue at concrete messages.
use coroutine_server.Prelude.{
  ℕ, ◌≤◌, if◌then◌else◌, ◌≡◌, refl, true, false, none, some, List, [], ◌∷◌, ◌++◌, Bytes, arith,
  codes, map, length, replicate, blit,
}
use coroutine_server.Wire.{SendNode, send_node}
use coroutine_server.Wire.Endian.{little_endian}
use coroutine_server.Wire.Frame.{frame_node}
use coroutine_server.Session.{Session, sends, completes, closes, send, run}
use coroutine_server.Session.Queue.{send_outcome, send_lem, Inv}
use coroutine_server.Session.Writing.{first, write_failed, run-writing}
use coroutine_server.Session.Order.{pipe, Added, run-Added, run-drained}

abbrev fresh : Session
fresh = record {
  uuid = codes "u-1";
  login_uid = coroutine_server.Prelude.pos 0;
  b_stop = false;
  socket_open = true;
  send_que = [];
  writing = none;
  sent = [];
  owned = true;
}

fresh-Inv : Inv fresh
fresh-Inv = record { bounded = omega arith; driven = tt; owner = refl }

abbrev hello : SendNode
hello = frame_node (codes "hello") 5 2004

-- One message is being written.
abbrev busy : Session
busy = record fresh { send_que = hello ∷ []; writing = some hello }

busy-Inv : Inv busy
busy-Inv = record { bounded = omega arith; driven = refl; owner = refl }

send_hello : send little_endian (codes "hello") 2004 fresh ≡ busy
unfolding send send_node blit
send_hello = refl

send_lem_example :
    send little_endian (codes "hello") 2004 fresh ≡ send_outcome (codes "hello") 2004 fresh
send_lem_example = send_lem little_endian (codes "hello") 2004 fresh (omega arith)

run-writing_example :
    let es = closes ∷ sends (codes "a") 2004 ∷ completes ∷ [] in
    let t = run little_endian es busy in
    (length t.send_que ≤ 1001)
    × (t.writing ≡ (if write_failed little_endian es busy then none else first t.send_que))
run-writing_example =
    run-writing little_endian (closes ∷ sends (codes "a") 2004 ∷ completes ∷ []) busy busy-Inv refl

run-Added_example :
    Added
      (pipe busy)
      (pipe (run little_endian (sends (codes "a") 2004 ∷ completes ∷ closes ∷ []) busy))
      (frame_node (codes "a") 1 2004 ∷ [])
run-Added_example =
    run-Added little_endian (sends (codes "a") 2004 ∷ completes ∷ closes ∷ []) busy busy-Inv

run-drained_example :
    let t = run little_endian (completes ∷ []) busy in (t.send_que ≡ []) × (t.sent ≡ hello ∷ [])
run-drained_example = run-drained little_endian (hello ∷ []) busy busy-Inv refl refl
