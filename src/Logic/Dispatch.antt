-- ===== src/Logic/Dispatch.antt =====
-- The queue of `LogicSystem` and its worker: `PostMsgToQue`, one round of `DealMsg`, and the table
-- of `RegisterCallBack`.
use coroutine_server.Prelude.{
  ℕ, ◌≤◌, ◌≡◌, Bool, false, Option, none, some, List, [], ◌∷◌, ◌++◌, Bytes, arith, leb, ◌==◌,
  if◌then◌else◌, length, take, length-append,
}
use coroutine_server.Const.{
  max_recvque, msg_hello_world, msg_register_req, msg_login_req, msg_get_friend_list_req,
  msg_add_friend_req, msg_send_chat_req, msg_offline_msg_req,
}
use coroutine_server.Wire.{RecvNode}
use coroutine_server.Wire.Endian.{ByteOrder}
use coroutine_server.World.{World}
use coroutine_server.Logic.Monad.{Action}
use coroutine_server.Logic.Json.{JsonLib}
use coroutine_server.Logic.Replies.{Env}
use coroutine_server.Logic.Accounts.{hello_world, register_request, login_request}
use coroutine_server.Logic.Contacts.{
  get_friend_list_request, add_friend_request, chat_message_request, get_offline_message_request,
}

-- `LogicNode`: a received message and the session that it came from.
pub record LogicNode : Type 0 where
  pub session : ℕ
  pub recvnode : RecvNode

-- `std::string(_data.data(), _cur_len)`
abbrev pub msg_data : RecvNode → Bytes
msg_data n = take n.cur_len n.bytes

-- `PostMsgToQue`, with whether it wakes the worker: a full queue drops the message.
unfoldable pub post_msg : LogicNode → List LogicNode → List LogicNode × Bool
post_msg n q =
    if leb max_recvque (length q) then (q, false) else (q ++ n ∷ [], length (q ++ n ∷ []) == 1)

module _ {Json : Type 0} (lib : JsonLib Json) (order : ByteOrder) (hasher : Bytes → ℕ)
    (env : Env) where
  -- The entry of `_fun_callbacks` for a message id; `none` if the id is not registered.
  unfoldable pub callback : ℕ → Option (ℕ → Bytes → Action (Unit {0}))
  callback id =
      if id == msg_hello_world
      then some (hello_world lib order hasher env)
      else if id == msg_register_req
      then some (register_request lib order hasher env)
      else if id == msg_login_req
      then some (login_request lib order hasher env)
      else if id == msg_get_friend_list_req
      then some (λ sid _. get_friend_list_request lib order env sid)
      else if id == msg_add_friend_req
      then some (add_friend_request lib order env)
      else if id == msg_send_chat_req
      then some (chat_message_request lib order env)
      else if id == msg_offline_msg_req
      then some (λ sid _. get_offline_message_request lib order env sid)
      else none

  -- One round of `DealMsg` with a message: its `catch` only logs.
  unfoldable pub deal : LogicNode → World → World
  deal n w = elim (callback n.recvnode.msg_id) [
    | none ↦ w
    | some run ↦ (run n.session (msg_data n.recvnode) w).1
  ]

-- One round of the worker's loop: it ends when the system stops and nothing is left. What it does
-- while the queue is empty and the system runs is to wait.
pub data Round : Type 0 where
  waits ends : Round
  deals : LogicNode → List LogicNode → Round

unfoldable pub next_round : Bool → List LogicNode → Round
next_round stop [] = if stop then ends else waits
next_round stop (n ∷ q) = deals n q

-- From a queue of at most 10000 messages, a post leaves at most 10000: it drops the message if the
-- queue is full and otherwise puts it last; it wakes the worker exactly if the queue was empty.
pub post_msg_lem :
    (n : LogicNode) (q : List LogicNode)
    → length q ≤ 10000
    → (length (post_msg n q).0 ≤ 10000)
      × ((post_msg n q).0 ≡ (if length q == 10000 then q else q ++ n ∷ []))
      × ((post_msg n q).1 ≡ (length q == 0))
unfolding post_msg
post_msg_lem n q h = ground (arith, length-append q (n ∷ []))
