-- ===== src/Logic/Keeps.antt =====
-- What the handlers keep: a predicate on the state that the calls in a handler keep is kept by the
-- handler, through early returns and exceptions too. `search` walks a handler by these rules.
use coroutine_server.Prelude.{
  ℕ, ◌≡◌, refl, Bool, true, false, Option, none, some, Bytes, if◌then◌else◌, ◌++◌, codes,
}
use coroutine_server.Wire.Endian.{ByteOrder}
use coroutine_server.World.{World, send}
use coroutine_server.Logic.Monad.{
  Result, ok, throw, Action, pure, lift, gets, modify, state, maybe, proceed, ◌>>=◌, recover,
  try_catch,
}
use coroutine_server.Logic.Json.{JsonLib}
use coroutine_server.Logic.Replies.{reply, reply_error, guarded}

-- Run from a state with `P`, the action ends in one, whether it returns or throws.
pub record Keeps {ℓ} {A : Type 0} (P : World → Type ℓ) (m : Action A) : Type ℓ where
  pub along : (w : World) → P w → P (m w).1

module _ {ℓ} {A : Type 0} {P : World → Type ℓ} where
  pub Keeps-pure : (a : A) → Keeps P (pure a)
  unfolding pure
  Keeps-pure a = record { along = λ w p. p }

  pub Keeps-lift : (r : Result A) → Keeps P (lift r)
  unfolding lift
  Keeps-lift r = record { along = λ w p. p }

  pub Keeps-gets : (f : World → A) → Keeps P (gets f)
  unfolding gets
  Keeps-gets f = record { along = λ w p. p }

  pub Keeps-state : (f : World → A × World) → ((w : World) → P w → P (f w).1) → Keeps P (state f)
  unfolding state
  Keeps-state f k = record { along = k }

  pub Keeps-if : (b : Bool) (m n : Action A) → Keeps P m → Keeps P n → Keeps P (if b then m else n)
  Keeps-if true m n km kn = km
  Keeps-if false m n km kn = kn

  pub Keeps-maybe :
      {B : Type 0} (o : Option B) (m : Action A) (f : B → Action A)
      → Keeps P m
      → ((b : B) → Keeps P (f b))
      → Keeps P (maybe o m f)
  unfolding maybe
  Keeps-maybe none m f km kf = km
  Keeps-maybe (some b) m f km kf = kf b

  recover-Keeps :
      (h : Bytes → Action A) (r : Result A)
      → ((e : Bytes) → Keeps P (h e))
      → (w : World) → P w
      → P (recover h r w).1
  recover-Keeps h (ok a) k w p = p
  recover-Keeps h (throw e) k w p = (k e).along w p

  pub Keeps-try_catch :
      (m : Action A) (h : Bytes → Action A)
      → Keeps P m
      → ((e : Bytes) → Keeps P (h e))
      → Keeps P (try_catch m h)
  unfolding try_catch
  Keeps-try_catch m h km kh = record {
    along = λ w p. recover-Keeps h (m w).0 kh (m w).1 (km.along w p);
  }

module _ {ℓ} {P : World → Type ℓ} where
  pub Keeps-modify : (f : World → World) → ((w : World) → P w → P (f w)) → Keeps P (modify f)
  unfolding modify
  Keeps-modify f k = record { along = k }

module _ {ℓ} {A B : Type 0} {P : World → Type ℓ} where
  proceed-Keeps :
      (f : A → Action B) (r : Result A)
      → ((a : A) → Keeps P (f a))
      → (w : World) → P w
      → P (proceed f r w).1
  proceed-Keeps f (ok a) k w p = (k a).along w p
  proceed-Keeps f (throw e) k w p = p

  pub Keeps-bind :
      (m : Action A) (f : A → Action B) → Keeps P m → ((a : A) → Keeps P (f a)) → Keeps P (m >>= f)
  unfolding ◌>>=◌
  Keeps-bind m f km kf = record { along = λ w p. proceed-Keeps f (m w).0 kf (m w).1 (km.along w p) }

  -- What follows a call that changes the state.
  pub state-after :
      (f : World → A × World) (k : A → Action B) (w : World)
      → ((a : A) → Keeps P (k a))
      → P (f w).1
      → P ((state f >>= k) w).1
  unfolding ◌>>=◌
  state-after f k w keeps p = (keeps (f w).0).along (f w).1 p

module _ {A B : Type 0} where
  -- What follows an action that is known to return.
  pub bind-ok :
      (m : Action A) (k : A → Action B) (w : World) (a : A) (w' : World)
      → m w ≡ (ok a, w')
      → (m >>= k) w ≡ k a w'
  unfolding ◌>>=◌
  bind-ok m k w a w' e = rw e refl

pub ruleset keeps_rules = (Keeps-pure, Keeps-lift, Keeps-gets, Keeps-if, Keeps-maybe, Keeps-bind)

-- The replies keep what `Send` keeps.
module _ {ℓ} {Json : Type 0} (lib : JsonLib Json) (order : ByteOrder) (P : World → Type ℓ)
    (send_keeps : (sid : ℕ) (msg : Bytes) (id : ℕ) (w : World)
      → P w
      → P (send order sid msg id w)) where
  pub reply-Keeps : (sid : ℕ) (body : Bytes) (id : ℕ) → Keeps P (reply lib order sid body id)
  unfolding reply
  reply-Keeps sid body id = Keeps-modify _ (send_keeps sid body id)

  pub reply_error-Keeps :
      (sid : ℕ) (msg : Bytes) (id : ℕ) → Keeps P (reply_error lib order sid msg id)
  unfolding reply_error
  reply_error-Keeps sid msg id = search (keeps_rules, reply-Keeps)

  pub guarded-Keeps :
      (sid id : ℕ) (m : Action (Unit {0})) → Keeps P m → Keeps P (guarded lib order sid id m)
  unfolding guarded
  guarded-Keeps sid id m km = search (keeps_rules, Keeps-try_catch, reply_error-Keeps)

  -- The `catch` of a handler comes after what its body has done.
  pub guarded-after :
      (sid id : ℕ) (m : Action (Unit {0})) (w : World)
      → P (m w).1
      → P (guarded lib order sid id m w).1
  unfolding guarded try_catch
  guarded-after sid id m w p = recover-Keeps report (m w).0 report-Keeps (m w).1 p
    where
      report : Bytes → Action (Unit {0})
      report what =
          try_catch (reply_error lib order sid (codes "exception: " ++ what) id) λ _. pure tt

      report-Keeps : (what : Bytes) → Keeps P (report what)
      report-Keeps what = search (keeps_rules, Keeps-try_catch, reply_error-Keeps)

module _ {Json : Type 0} (lib : JsonLib Json) (order : ByteOrder) where
  -- Nothing is caught of a handler that returns.
  pub guarded-ok :
      (sid id : ℕ) (m : Action (Unit {0})) (w w' : World)
      → m w ≡ (ok tt, w')
      → (guarded lib order sid id m w).1 ≡ w'
  unfolding guarded try_catch
  guarded-ok sid id m w w' e = rw e refl
