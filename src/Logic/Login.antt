-- ===== src/Logic/Login.antt =====
-- What a login does to the sessions: the old one is closed, then the new one is bound.
use coroutine_server.Prelude.{
  ℕ, ◌≡◌, ◌≢◌, refl, sym, ap, ◌∙◌, true, false, Option, none, some, Bytes, ℤ, pos, ◌<ℤ◌, arith,
  subst,
}
use native.Mathlib.Decide.{ℕ_discrete}
use coroutine_server.Wire.Endian.{ByteOrder}
use coroutine_server.Session
use coroutine_server.Online.{lookup, live, get_session_by_uid_lem}
use coroutine_server.World.{World, close, set_login_uid, add_online, get_session}
use coroutine_server.World.Logins.{LoginInv, login-LoginInv}
use coroutine_server.Logic.Monad.{ok, ◌>>=◌}
use coroutine_server.Logic.Json.{JsonLib}
use coroutine_server.Logic.Replies.{Env}
use coroutine_server.Logic.Accounts.{close_old, login_bind}
use coroutine_server.Logic.Invariant.{ServerInv, get_session-ServerInv, close-ServerInv}

-- No open session is logged in as `uid`.
abbrev pub NobodyAs : ℤ → World → Type 0
NobodyAs uid w = (s : ℕ) → (w.sessions s).b_stop ≡ false → (w.sessions s).login_uid ≢ uid

close-stops : (sid : ℕ) (w : World) → ((close sid w).sessions sid).b_stop ≡ true
unfolding close Session.close
close-stops sid w = ground arith

close-others : (sid s : ℕ) (w : World) → s ≢ sid → (close sid w).sessions s ≡ w.sessions s
unfolding close
close-others sid s w h = ground arith

get_session-found :
    (uid : ℤ) (w : World)
    → pos 0 <ℤ uid
    → (get_session uid w).0 ≡ live w.expired (lookup uid w.online)
unfolding get_session
get_session-found uid w h = ground (arith, get_session_by_uid_lem w.expired uid uid w.online)

get_session-sessions : (uid : ℤ) (w : World) → (get_session uid w).1.sessions ≡ w.sessions
unfolding get_session
get_session-sessions uid w = refl

module _ {Json : Type 0} (lib : JsonLib Json) (order : ByteOrder) (hasher : Bytes → ℕ) (env : Env)
    (uid : ℤ) (h : pos 0 <ℤ uid) where
  pub found-only :
      (s : ℕ) (w : World)
      → LoginInv w
      → (w.sessions s).b_stop ≡ false
      → (w.sessions s).login_uid ≡ uid
      → (get_session uid w).0 ≡ some s
  found-only s w v open_ e = ground (arith, get_session-found uid w h, v.named s, v.gone s)

  close_found : Option ℕ → World → World
  close_found none w = w
  close_found (some t) w = close t w

  close_old-found :
      (w : World)
      → (close_old lib order hasher env uid w).1
        ≡ close_found (get_session uid w).0 (get_session uid w).1
  unfolding close_old close_found ◌>>=◌
  close_old-found w = ground arith

  -- The user's session that is found is closed.
  pub close_old-close :
      (t : ℕ) (w : World)
      → (get_session uid w).0 ≡ some t
      → (close_old lib order hasher env uid w).1 ≡ close t (get_session uid w).1
  unfolding close_found
  close_old-close t w e =
      close_old-found w ∙ ap (λ (found : Option ℕ). close_found found (get_session uid w).1) e

  close_found-NobodyAs :
      (found : Option ℕ) (w : World)
      → ((s : ℕ) → (w.sessions s).b_stop ≡ false → (w.sessions s).login_uid ≡ uid → found ≡ some s)
      → NobodyAs uid (close_found found w)
  unfolding close_found
  close_found-NobodyAs none w k s open_ e = cc (k s open_ e)
  close_found-NobodyAs (some t) w k s open_ e = elim (ℕ_discrete s t) [
    | yes same ↦ cc (close-stops t w)
    | no other ↦
        let e' = close-others t s w other in
        other (
          cc (
            k s (ap (λ (x : Session.Session). x.b_stop) (sym e') ∙ open_)
              (ap (λ (x : Session.Session). x.login_uid) (sym e') ∙ e)))
  ]

  pub close_old-NobodyAs :
      (w : World) → LoginInv w → NobodyAs uid (close_old lib order hasher env uid w).1
  close_old-NobodyAs w v = subst (NobodyAs uid) (sym (close_old-found w)) (
      close_found-NobodyAs (get_session uid w).0 (get_session uid w).1 (
        subst
          (λ (f : ℕ → Session.Session).
            (s : ℕ) → (f s).b_stop ≡ false → (f s).login_uid ≡ uid → (get_session uid w).0 ≡ some s)
          (sym (get_session-sessions uid w)) (λ s. found-only s w v)))

  close_found-ServerInv :
      (found : Option ℕ) (w : World) → ServerInv w → ServerInv (close_found found w)
  unfolding close_found
  close_found-ServerInv none w v = v
  close_found-ServerInv (some t) w v = close-ServerInv t w v

  close_old-ServerInv :
      (w : World) → ServerInv w → ServerInv (close_old lib order hasher env uid w).1
  close_old-ServerInv w v = subst ServerInv (sym (close_old-found w)) (
      close_found-ServerInv (get_session uid w).0 (get_session uid w).1
        (get_session-ServerInv uid w v))

  bound-ServerInv :
      (sid : ℕ) (w : World)
      → NobodyAs uid w
      → ServerInv w
      → ServerInv (add_online uid sid (set_login_uid sid uid w))
  bound-ServerInv sid w alone v = record {
    logins = login-LoginInv sid uid w h (λ s open_ e. absurd (alone s open_ e)) v.logins;
    accounts = unfold add_online set_login_uid in v.accounts;
    messages = unfold add_online set_login_uid in v.messages;
  }

  close_old-ok : (w : World) → (close_old lib order hasher env uid w).0 ≡ ok tt
  unfolding close_old ◌>>=◌
  close_old-ok w = ground arith

  -- Binding a session never throws: it closes the old session, then binds the new one.
  pub login_bind_lem :
      (sid : ℕ) (w : World)
      → login_bind lib order hasher env sid uid w ≡ (
        ok tt,
        add_online uid sid (set_login_uid sid uid (close_old lib order hasher env uid w).1),
      )
  login_bind_lem sid w = unfold login_bind ◌>>=◌ in rw (close_old-ok w)

  pub login_bind-ServerInv :
      (sid : ℕ) (w : World) → ServerInv w → ServerInv (login_bind lib order hasher env sid uid w).1
  login_bind-ServerInv sid w v = rw (login_bind_lem sid w) (
      bound-ServerInv sid (close_old lib order hasher env uid w).1 (close_old-NobodyAs w v.logins)
        (close_old-ServerInv w v))
