-- ===== src/Logic/Requests/Tests.antt =====
-- Two clients at once: one registers, the other sends a chat message.
use coroutine_server.Prelude.{
  ℕ, ◌<◌, ◌≡◌, ◌≢◌, refl, sym, ap, ◌∙◌, Bool, false, List, [], ◌∷◌, codes, arith, length, map, ◌==◌,
  if◌then◌else◌,
}
use coroutine_server.Wire.Endian.{little_endian}
use coroutine_server.Reader.{read_loop}
use coroutine_server.Reader.Transport.{split_input}
use coroutine_server.Reader.Stream.{Message, stream, AllAccepted, read_loop-stream}
use coroutine_server.Logic.Replies.{Env}
use coroutine_server.Logic.Tests.{toy, env, uuids}
use coroutine_server.Logic.Dispatch.{post_msg, next_round}
use coroutine_server.Logic.Worker.{Worker, Event, posts, checks, ended, step, run}
use coroutine_server.Logic.Worker.Fifo.{FifoInv, accepted}
use coroutine_server.Logic.System.{new_worker}
use coroutine_server.Logic.Requests.{
  Request, posted_node, of_session, requests_of, handle_all, run-handle_all,
}

abbrev registering : Message
registering = record { id = 2001; body = codes "C" }

abbrev say : Message
say = record { id = 2010; body = codes "M" }

abbrev sent_by : ℕ → List Message
sent_by sid = if sid == 0 then registering ∷ [] else if sid == 1 then say ∷ [] else []

sent-AllAccepted : (sid : ℕ) → AllAccepted (sent_by sid)
sent-AllAccepted sid = ground arith

sent-short : (sid : ℕ) → length (sent_by sid) < 2
sent-short sid = ground arith

abbrev new : Worker
new = new_worker uuids

new-FifoInv : FifoInv new
new-FifoInv = ground arith

abbrev schedule : List Event
schedule = posts (posted_node (1, say)) ∷ checks env ∷ posts (posted_node (0, registering)) ∷ []

abbrev open_now : ℕ → Bool
open_now _ = false

schedule-read :
    (sid : ℕ)
    → of_session sid (accepted toy little_endian length schedule new)
      ≡ (read_loop little_endian split_input open_now 2 0 (stream (sent_by sid))).0
unfolding of_session step post_msg next_round
schedule-read sid =
    ground arith
    ∙ sym (
        ap (λ r. r.0)
          (read_loop-stream little_endian split_input open_now (λ _. refl) (sent_by sid) 2 0
            (sent-AllAccepted sid) (sent-short sid)))

schedule-on : (run toy little_endian length schedule new).phase ≢ ended
unfolding run step post_msg next_round
schedule-on = ground arith

run-handle_all_example :
    let w' =
      run toy little_endian length
        (map checks (env ∷ env ∷ []))
        (run toy little_endian length schedule new) in
    (rs : List Request) × (envs : List Env) × ((sid : ℕ) → requests_of sid rs ≡ sent_by sid)
    × (length envs ≡ length rs)
    × (w'.world ≡ handle_all toy little_endian length envs rs new.world)
unfolding run step post_msg next_round
run-handle_all_example =
    run-handle_all toy little_endian length split_input open_now sent_by 2 schedule (env ∷ env ∷ [])
      new (λ _. refl) sent-AllAccepted sent-short new-FifoInv refl refl schedule-read schedule-on
      (omega arith)
