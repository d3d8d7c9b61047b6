-- ===== src/World/Race.antt =====
-- `CSession::Close` in the two parts between which other threads can run: it stops the session and
-- takes the login uid, and then it hands the uid to `RemoveOnlineUser`.
use coroutine_server.Prelude.{
  ℕ, ◌≡◌, ◌≢◌, refl, false, none, ℤ, pos, ◌<ℤ◌, ==ℤ_iff, ==ℤ_refl, arith,
}
use coroutine_server.Session
use coroutine_server.Online.{lookup, lookup-remove_online_user}
use coroutine_server.World.{World, set_session, logged_out, close, set_login_uid, add_online}

-- Everything up to the unlocking of `_login_mutex`, with the uid that was taken; 0 if there is none.
unfoldable pub close_begin : ℕ → World → ℤ × World
close_begin sid w =
    ((Session.close (w.sessions sid)).1, set_session sid (Session.close (w.sessions sid)).0 w)

-- `if (uid_copy != 0) RemoveOnlineUser(uid_copy);`
unfoldable pub close_end : ℤ → World → World
close_end uid w = logged_out uid w

-- Nothing in between, the two parts are `Close`.
pub close-phases :
    (sid : ℕ) (w : World) → close_end (close_begin sid w).0 (close_begin sid w).1 ≡ close sid w
unfolding close_begin close_end close
close-phases sid w = refl

-- A user's login on the session `t` that runs between the two parts of the close of the user's open
-- session `s`, with its own close of `s`, leaves `t` open and logged in, but without its entry in the
-- online map.
pub close_end-race :
    (s t : ℕ) (uid : ℤ) (w : World)
    → s ≢ t
    → pos 0 <ℤ uid
    → (w.sessions s).b_stop ≡ false
    → (w.sessions s).login_uid ≡ uid
    → (w.sessions t).b_stop ≡ false
    → let (taken, begun) = close_begin s w in
      let bound = add_online uid t (set_login_uid t uid (close s begun)) in
      let ended = close_end taken bound in
      (lookup uid ended.online ≡ none)
      × ((ended.sessions t).b_stop ≡ false)
      × ((ended.sessions t).login_uid ≡ uid)
unfolding close_begin close_end close set_login_uid add_online Session.close
close_end-race s t uid w other positive open_s login open_t = ground (
  arith,
  other,
  open_s,
  login,
  open_t,
  ==ℤ_refl uid,
  ==ℤ_iff uid (pos 0),
  lookup-remove_online_user uid uid (add_online uid t w).online,
)
