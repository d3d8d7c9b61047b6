-- ===== src/Const.antt =====
-- CoroutineServer/const.h: the protocol constants, the queue limits, the bounds on input and the
-- message ids. The client (TestClient/TestClient.cpp) declares the same values again.
use coroutine_server.Prelude.{ℕ}

abbrev pub max_length : ℕ
max_length = 2048

abbrev pub head_total_len : ℕ
head_total_len = 4

abbrev pub head_id_len : ℕ
head_id_len = 2

abbrev pub head_data_len : ℕ
head_data_len = 2

abbrev pub max_recvque : ℕ
max_recvque = 10000

abbrev pub max_sendque : ℕ
max_sendque = 1000

abbrev pub min_username_len : ℕ
min_username_len = 2

abbrev pub max_username_len : ℕ
max_username_len = 32

abbrev pub min_password_len : ℕ
min_password_len = 3

abbrev pub max_password_len : ℕ
max_password_len = 64

abbrev pub max_message_len : ℕ
max_message_len = 2048

abbrev pub msg_hello_world : ℕ
msg_hello_world = 1001

-- The last valid message id, which the read loop writes out.
abbrev pub msg_id_last : ℕ
msg_id_last = 9999

abbrev pub msg_register_req : ℕ
msg_register_req = 2001

abbrev pub msg_register_rsp : ℕ
msg_register_rsp = 2002

abbrev pub msg_login_req : ℕ
msg_login_req = 2003

abbrev pub msg_login_rsp : ℕ
msg_login_rsp = 2004

abbrev pub msg_get_friend_list_req : ℕ
msg_get_friend_list_req = 2005

abbrev pub msg_get_friend_list_rsp : ℕ
msg_get_friend_list_rsp = 2006

abbrev pub msg_add_friend_req : ℕ
msg_add_friend_req = 2007

abbrev pub msg_add_friend_rsp : ℕ
msg_add_friend_rsp = 2008

abbrev pub msg_friend_request_push : ℕ
msg_friend_request_push = 2009

abbrev pub msg_send_chat_req : ℕ
msg_send_chat_req = 2010

abbrev pub msg_send_chat_rsp : ℕ
msg_send_chat_rsp = 2011

abbrev pub msg_chat_msg_push : ℕ
msg_chat_msg_push = 2012

abbrev pub msg_offline_msg_req : ℕ
msg_offline_msg_req = 2013

abbrev pub msg_offline_msg_rsp : ℕ
msg_offline_msg_rsp = 2014
