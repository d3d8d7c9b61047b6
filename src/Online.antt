-- ===== src/Online.antt =====
-- `UserManager` (CoroutineServer/UserManager.h and UserManager.cpp): which session is online for a
-- uid. A session is named by a number, its identity; the map holds weak pointers, so a session may
-- have expired. Each method runs under the manager's mutex, so it is one step.
mod Tests
use coroutine_server.Prelude.{
  ℕ, ◌≡◌, refl, ◌≢◌, ◌==◌, ◌<ℤ◌, Bool, true, false, ◌||◌, Option, none, some, List, [], ◌∷◌, ℤ, pos,
  negsuc, leb_ℤ, ◌==ℤ◌, ==ℤ_iff, if◌then◌else◌, arith,
}

abbrev pub Online : Type 0
Online = List (ℤ × ℕ)

abbrev pub lookup : ℤ → Online → Option ℕ
lookup k [] = none
lookup k ((j, s) ∷ m) = if j ==ℤ k then some s else lookup k m

-- `_online_users[uid] = session`
unfoldable pub insert : ℤ → ℕ → Online → Online
insert k s [] = (k, s) ∷ []
insert k s ((j, t) ∷ m) = if j ==ℤ k then (j, s) ∷ m else (j, t) ∷ insert k s m

-- Every entry of the key, of which there is one at most.
unfoldable pub erase : ℤ → Online → Online
erase k [] = []
erase k ((j, t) ∷ m) = let rest = erase k m in if j ==ℤ k then rest else (j, t) ∷ rest

-- `AddOnlineUser`; `none` is a null pointer.
unfoldable pub add_online_user : ℤ → Option ℕ → Online → Online
add_online_user uid none m = m
add_online_user uid (some s) m = if leb_ℤ uid (pos 0) then m else insert uid s m

-- `RemoveOnlineUser`
unfoldable pub remove_online_user : ℤ → Online → Online
remove_online_user uid m = if leb_ℤ uid (pos 0) then m else erase uid m

-- `GetSessionByUid`: an entry whose session has expired is taken out.
unfoldable pub get_session_by_uid : (ℕ → Bool) → ℤ → Online → Option ℕ × Online
get_session_by_uid expired uid m = if leb_ℤ uid (pos 0) then (none, m) else elim (lookup uid m) [
  | none ↦ (none, m)
  | some s ↦ if expired s then (none, erase uid m) else (some s, m)
]

pub lookup-insert :
    (k j : ℤ) (s : ℕ) (m : Online)
    → lookup j (insert k s m) ≡ (if k ==ℤ j then some s else lookup j m)
unfolding insert
lookup-insert k j s [] = refl
lookup-insert k j s ((i, t) ∷ m) =
    ground (arith, ==ℤ_iff k j, ==ℤ_iff i k, ==ℤ_iff i j, lookup-insert k j s m)

pub lookup-erase :
    (k j : ℤ) (m : Online) → lookup j (erase k m) ≡ (if k ==ℤ j then none else lookup j m)
unfolding erase
lookup-erase k j [] = ground arith
lookup-erase k j ((i, t) ∷ m) =
    ground (arith, ==ℤ_iff k j, ==ℤ_iff i k, ==ℤ_iff i j, lookup-erase k j m)

-- After `AddOnlineUser` of a session the map names it for the uid, unless that is 0, and nothing else
-- has changed.
pub lookup-add_online_user :
    (n : ℕ) (s : ℕ) (j : ℤ) (m : Online)
    → lookup j (add_online_user (pos n) (some s) m)
      ≡ (if n == 0 then lookup j m else if pos n ==ℤ j then some s else lookup j m)
unfolding add_online_user
lookup-add_online_user n s j m = ground (arith, lookup-insert (pos n) j s m)

-- After `RemoveOnlineUser` a positive uid has no entry, and nothing else has changed; other uids
-- change nothing.
pub lookup-remove_online_user :
    (uid j : ℤ) (m : Online)
    → lookup j (remove_online_user uid m)
      ≡ (if leb_ℤ uid (pos 0) then lookup j m else if uid ==ℤ j then none else lookup j m)
unfolding remove_online_user
lookup-remove_online_user uid j m = ground (arith, lookup-erase uid j m)

-- What `weak_ptr::lock` makes of an entry.
abbrev pub live : (ℕ → Bool) → Option ℕ → Option ℕ
live expired none = none
live expired (some s) = if expired s then none else some s

-- `GetSessionByUid` of a positive uid returns the session of its entry if it is alive, never an
-- expired one, and otherwise nothing; it takes an entry out only where the session has expired.
-- Other uids find nothing and change nothing.
pub get_session_by_uid_lem :
    (expired : ℕ → Bool) (uid j : ℤ) (m : Online)
    → let (found, m') = get_session_by_uid expired uid m in
      (found ≡ (if leb_ℤ uid (pos 0) then none else live expired (lookup uid m)))
      × (lookup j m' ≡ (
          if leb_ℤ uid (pos 0)
          then lookup j m
          else if uid ==ℤ j
          then live expired (lookup uid m)
          else lookup j m))
unfolding get_session_by_uid
get_session_by_uid_lem expired uid j m = ground (arith, lookup-erase uid j m, ==ℤ_iff uid j)
