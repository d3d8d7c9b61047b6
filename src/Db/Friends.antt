-- ===== src/Db/Friends.antt =====
-- Friendship: what `AddFriend` writes and what `GetFriendList` reads are one symmetric relation.
use coroutine_server.Prelude.{
  ℕ, suc, ◌≡◌, refl, sym, ◌∙◌, true, false, ◌&&◌, ◌||◌, none, List, [], ◌∷◌, ◌++◌, arith, ℤ, pos,
  ◌==ℤ◌, ==ℤ_iff,
}
use coroutine_server.Db.{
  Db, Friend, Outcome, are_friends, friends_to, friends_from, contains, distinct, add_friend,
  get_friend_list,
}

pub are_friends_symm : (a b : ℤ) (fs : List Friend) → are_friends a b fs ≡ are_friends b a fs
unfolding are_friends
are_friends_symm a b [] = refl
are_friends_symm a b (f ∷ fs) = ground (arith, are_friends_symm a b fs)

contains-append :
    (x : ℤ) (xs ys : List ℤ) → contains x (xs ++ ys) ≡ (contains x xs || contains x ys)
unfolding contains
contains-append x [] ys = refl
contains-append x (y ∷ xs) ys = ground (arith, contains-append x xs ys)

contains-distinct : (x : ℤ) (xs : List ℤ) → contains x (distinct xs) ≡ contains x xs
unfolding distinct
contains-distinct x [] = refl
contains-distinct x (y ∷ xs) =
    ground (arith, contains-distinct x xs, contains-distinct y xs, ==ℤ_iff y x)

contains-friends :
    (a b : ℤ) (fs : List Friend)
    → (contains b (friends_to a fs) || contains b (friends_from a fs)) ≡ are_friends a b fs
unfolding contains friends_to friends_from are_friends
contains-friends a b [] = refl
contains-friends a b (f ∷ fs) = ground (arith, contains-friends a b fs)

pub are_friends-append :
    (a b : ℤ) (fs : List Friend) (f : Friend)
    → are_friends a b (fs ++ f ∷ []) ≡ (are_friends a b fs || are_friends a b (f ∷ []))
unfolding are_friends
are_friends-append a b [] f = ground arith
are_friends-append a b (g ∷ fs) f = ground (arith, are_friends-append a b fs f)

-- SQLite runs the query to its end, and a UNION yields its rows in some order.
pub record Answers (o : Outcome) : Type 0 where
  pub prepared : o.prepare 0 ≡ true
  pub complete : o.fetched ≡ none
  pub same_rows : (x : ℤ) (xs : List ℤ) → contains x (o.arrange xs) ≡ contains x xs

-- If SQLite runs the query to its end and yields its rows in some order, the friend list of a positive
-- uid holds exactly those with whom it shares a row, in either direction.
pub get_friend_list_lem :
    (o : Outcome) (n : ℕ) (b : ℤ) (db : Db)
    → Answers o
    → contains b (get_friend_list o (pos (suc n)) db) ≡ are_friends (pos (suc n)) b db.friends
unfolding get_friend_list
get_friend_list_lem o n b db h =
    let a = pos (suc n) in
    let to = friends_to a db.friends in
    let from = friends_from a db.friends in
    ground (
      arith,
      h.prepared,
      h.complete,
      h.same_rows b (distinct (to ++ from)),
      contains-distinct b (to ++ from),
      contains-append b to from,
      contains-friends a b db.friends,
    )

-- Friendship is mutual: `b` is on the list of `a` exactly when `a` is on the list of `b`.
pub get_friend_list_symm :
    (o o' : Outcome) (n m : ℕ) (db : Db)
    → Answers o
    → Answers o'
    → contains (pos (suc m)) (get_friend_list o (pos (suc n)) db)
      ≡ contains (pos (suc n)) (get_friend_list o' (pos (suc m)) db)
get_friend_list_symm o o' n m db h h' =
    get_friend_list_lem o n (pos (suc m)) db h
    ∙ are_friends_symm (pos (suc n)) (pos (suc m)) db.friends
    ∙ sym (get_friend_list_lem o' m (pos (suc n)) db h')

-- What a successful `add_friend` has written.
add_friend-true :
    (o : Outcome) (a b : ℤ) (db db' : Db)
    → add_friend o a b db ≡ (true, db')
    → db' ≡ record db { friends = db.friends ++ record { uid = a; friend_uid = b } ∷ [] }
unfolding add_friend
add_friend-true o a b db db' e = ground arith

-- Adding a friend makes the two friends of one another, and leaves every other pair as it was.
pub are_friends-add_friend :
    (o : Outcome) (a b c d : ℤ) (db db' : Db)
    → add_friend o a b db ≡ (true, db')
    → are_friends c d db'.friends
      ≡ (are_friends c d db.friends || ((a ==ℤ c && b ==ℤ d) || (a ==ℤ d && b ==ℤ c)))
unfolding are_friends
are_friends-add_friend o a b c d db db' e = ground (
  arith,
  add_friend-true o a b db db' e,
  are_friends-append c d db.friends (record { uid = a; friend_uid = b }),
)

-- Those who are friends already, in either direction, cannot be added again, if SQLite runs the
-- query that looks.
pub add_friend-again :
    (o : Outcome) (a b : ℤ) (db : Db)
    → o.runs 1 ≡ true
    → are_friends a b db.friends ≡ true
    → add_friend o a b db ≡ (false, db)
unfolding add_friend
add_friend-again o a b db r e = ground arith
