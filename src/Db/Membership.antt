-- ===== src/Db/Membership.antt =====
-- `AddFriend` counts rows to see that both users exist: with distinct uids the count is right.
use coroutine_server.Prelude.{
  ℕ, ◌+◌, ◌≤◌, ◌<◌, ◌≡◌, ◌≢◌, refl, Bool, true, false, ◌||◌, List, [], ◌∷◌, ◌++◌, arith, ℤ, pos,
  ◌==ℤ◌, ==ℤ_iff, if◌then◌else◌,
}
use coroutine_server.Db.{Db, User, Friend, Outcome, count_users, are_friends, add_friend}
use coroutine_server.Db.Users.{Uids, AccountsValid}
use coroutine_server.Db.Friends.{are_friends-append}

-- A row of the table has this uid.
unfoldable pub has_uid : ℤ → List User → Bool
has_uid a [] = false
has_uid a (u ∷ us) = pos u.uid ==ℤ a || has_uid a us

has_uid-below :
    (a low high : ℕ) (us : List User) → Uids low high us → a < low → has_uid (pos a) us ≡ false
unfolding has_uid
has_uid-below a low high [] v h = refl
has_uid-below a low high (u ∷ us) v h = ground (arith, has_uid-below a (u.uid + 1) high us v.1)

pub count_users-le :
    (a b : ℤ) (low high : ℕ) (us : List User)
    → Uids low high us
    → a ≢ b
    → count_users a b us ≤ (if has_uid a us then 1 else 0) + (if has_uid b us then 1 else 0)
unfolding count_users has_uid
count_users-le a b low high [] v h = omega arith
count_users-le a b low high (u ∷ us) v h = ground (
  arith,
  count_users-le a b (u.uid + 1) high us v.1 h,
  has_uid-below u.uid (u.uid + 1) high us v.1,
  ==ℤ_iff (pos u.uid) a,
  ==ℤ_iff (pos u.uid) b,
)

-- Two users become friends only if both are registered and they are two.
pub add_friend-registered :
    (o : Outcome) (a b : ℤ) (db db' : Db)
    → AccountsValid db
    → add_friend o a b db ≡ (true, db')
    → (has_uid a db.users ≡ true) × (has_uid b db.users ≡ true) × (a ≢ b)
unfolding add_friend
add_friend-registered o a b db db' v e =
    (ground (arith, distinct, count), ground (arith, distinct, count), distinct)
  where
    distinct : a ≢ b
    distinct q = ground (arith, ==ℤ_iff a b)

    count :
        count_users a b db.users
        ≤ (if has_uid a db.users then 1 else 0) + (if has_uid b db.users then 1 else 0)
    count = count_users-le a b 1 db.next_uid db.users v.uids distinct

-- No one is a friend of oneself, and no pair stands in two rows.
abbrev pub FriendsValid : List Friend → Type 0
FriendsValid [] = Unit {0}
FriendsValid (f ∷ fs) =
    (f.uid ≢ f.friend_uid) × (are_friends f.uid f.friend_uid fs ≡ false) × FriendsValid fs

FriendsValid-append :
    (fs : List Friend) (f : Friend)
    → f.uid ≢ f.friend_uid
    → are_friends f.uid f.friend_uid fs ≡ false
    → FriendsValid fs
    → FriendsValid (fs ++ f ∷ [])
unfolding are_friends
FriendsValid-append [] f n h v = (n, refl, tt)
FriendsValid-append (g ∷ fs) f n h v = (
  v.0,
  ground (
    arith,
    are_friends-append g.uid g.friend_uid fs f,
    ==ℤ_iff f.uid g.uid,
    ==ℤ_iff g.uid f.uid,
    ==ℤ_iff f.friend_uid g.friend_uid,
    ==ℤ_iff g.friend_uid f.friend_uid,
    ==ℤ_iff f.uid g.friend_uid,
    ==ℤ_iff g.friend_uid f.uid,
    ==ℤ_iff f.friend_uid g.uid,
    ==ℤ_iff g.uid f.friend_uid,
  ),
  FriendsValid-append fs f n (ground arith) v.2,
)

-- While SQLite runs the query that looks for an earlier row, adding friends keeps the table free of
-- rows of one user with itself and of two rows for the same two users.
pub add_friend-FriendsValid :
    (o : Outcome) (a b : ℤ) (db : Db)
    → o.runs 1 ≡ true
    → FriendsValid db.friends
    → FriendsValid (add_friend o a b db).1.friends
unfolding add_friend
add_friend-FriendsValid o a b db r v =
    ground (arith, FriendsValid-append db.friends (record { uid = a; friend_uid = b }), ==ℤ_iff a b)
