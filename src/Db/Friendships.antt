-- ===== src/Db/Friendships.antt =====
-- The tables of users and friends together, through any registrations and friend requests.
use coroutine_server.Prelude.{
  ℕ, ◌≡◌, true, List, [], ◌∷◌, ◌++◌, Bytes, c_str, arith, ℤ, Bool-cases, inl, inr,
}
use coroutine_server.Db.{Db, User, Friend, Outcome, simple_hash, register_user, add_friend}
use coroutine_server.Db.Users.{AccountsValid, register_user-AccountsValid}
use coroutine_server.Db.Membership.{
  has_uid, FriendsValid, add_friend-registered, add_friend-FriendsValid,
}

-- Both ends of every row are registered users.
abbrev pub Members : List User → List Friend → Type 0
Members us [] = Unit {0}
Members us (f ∷ fs) = (has_uid f.uid us ≡ true) × (has_uid f.friend_uid us ≡ true) × Members us fs

pub record FriendshipsValid (db : Db) : Type 0 where
  pub accounts : AccountsValid db
  pub pairs : FriendsValid db.friends
  pub members : Members db.users db.friends

has_uid-append :
    (a : ℤ) (us : List User) (u : User) → has_uid a us ≡ true → has_uid a (us ++ u ∷ []) ≡ true
unfolding has_uid
has_uid-append a [] u h = ground (arith, h)
has_uid-append a (v ∷ us) u h = ground (arith, has_uid-append a us u)

Members-user :
    (us : List User) (u : User) (fs : List Friend) → Members us fs → Members (us ++ u ∷ []) fs
Members-user us u [] m = tt
Members-user us u (f ∷ fs) m =
    (has_uid-append f.uid us u m.0, has_uid-append f.friend_uid us u m.1, Members-user us u fs m.2)

Members-friend :
    (us : List User) (fs : List Friend) (f : Friend)
    → Members us fs
    → has_uid f.uid us ≡ true
    → has_uid f.friend_uid us ≡ true
    → Members us (fs ++ f ∷ [])
Members-friend us [] f m a b = (a, b, tt)
Members-friend us (g ∷ fs) f m a b = (m.0, m.1, Members-friend us fs f m.2 a b)

-- A registration or a friend request.
pub data Change : Type 0 where
  registers : Bytes → Bytes → Change
  befriends : ℤ → ℤ → Change

-- The query for an earlier row runs in every friend request.
abbrev pub Checked : List (Outcome × Change) → Type 0
Checked [] = Unit {0}
Checked ((o, registers name password) ∷ cs) = Checked cs
Checked ((o, befriends a b) ∷ cs) = (o.runs 1 ≡ true) × Checked cs

module _ (hasher : Bytes → ℕ) where
  unfoldable pub change : Outcome → Change → Db → Db
  change o (registers name password) db = (register_user hasher o name password db).1
  change o (befriends a b) db = (add_friend o a b db).1

  unfoldable pub changes : List (Outcome × Change) → Db → Db
  unfolding change
  changes [] db = db
  changes ((o, c) ∷ cs) db = changes cs (change o c db)

  register_user-FriendshipsValid :
      (o : Outcome) (name password : Bytes) (db : Db)
      → FriendshipsValid db
      → FriendshipsValid (register_user hasher o name password db).1
  unfolding register_user
  register_user-FriendshipsValid o name password db v =
      let u : User = record {
        uid = db.next_uid;
        username = c_str name;
        password_hash = c_str (simple_hash hasher password);
      } in
      record {
        accounts = register_user-AccountsValid hasher o name password db v.accounts;
        pairs = ground (arith, v.pairs);
        members = ground (arith, v.members, Members-user db.users u db.friends v.members);
      }

  add_friend-Members :
      (o : Outcome) (a b : ℤ) (db : Db)
      → AccountsValid db
      → Members db.users db.friends
      → let db' = (add_friend o a b db).1 in Members db'.users db'.friends
  unfolding add_friend
  add_friend-Members o a b db v m = elim (Bool-cases (add_friend o a b db).0) [
    | inl done ↦
        let (left, right, _) =
          add_friend-registered o a b db (add_friend o a b db).1 v (ground (arith, done)) in
        ground (
          arith,
          m,
          Members-friend db.users db.friends (record { uid = a; friend_uid = b }) m left right,
        )
    | inr not_done ↦ ground (arith, m, not_done)
  ]

  add_friend-FriendshipsValid :
      (o : Outcome) (a b : ℤ) (db : Db)
      → o.runs 1 ≡ true
      → FriendshipsValid db
      → FriendshipsValid (add_friend o a b db).1
  unfolding add_friend
  add_friend-FriendshipsValid o a b db r v = record {
    accounts = ground (arith, v.accounts);
    pairs = add_friend-FriendsValid o a b db r v.pairs;
    members = add_friend-Members o a b db v.accounts v.members;
  }

  -- Through any registrations and friend requests, while SQLite runs the query that looks for an
  -- earlier row, uids and names stay distinct, each row of friends has two registered users at its
  -- ends, who are two, and no two rows have the same two users.
  pub changes-FriendshipsValid :
      (cs : List (Outcome × Change)) (db : Db)
      → Checked cs
      → FriendshipsValid db
      → FriendshipsValid (changes cs db)
  unfolding changes
  changes-FriendshipsValid [] db ok v = v
  changes-FriendshipsValid ((o, registers name password) ∷ cs) db ok v =
      changes-FriendshipsValid cs _ ok (register_user-FriendshipsValid o name password db v)
  changes-FriendshipsValid ((o, befriends a b) ∷ cs) db ok v =
      changes-FriendshipsValid cs _ ok.1 (add_friend-FriendshipsValid o a b db ok.0 v)
