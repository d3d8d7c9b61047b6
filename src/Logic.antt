-- ===== src/Logic.antt =====
-- `LogicSystem` (CoroutineServer/LogicSystem.h and LogicSystem.cpp): the message handlers, the
-- dispatch on the message id, and the bounded queue between the sessions and the worker thread.
pub mod Monad
pub mod Json
pub mod Replies
pub mod Accounts
pub mod Contacts
pub mod Dispatch
pub mod Worker
pub mod Keeps
pub mod Callbacks
pub mod Invariant
pub mod Login
pub mod Handlers
pub mod Server
pub mod Guests
mod Tests
pub mod Chats
pub mod Pulls
pub mod Pushes
pub mod Logged
pub mod Again
pub mod Switch
pub mod Newcomer
pub mod System
pub mod Requests
