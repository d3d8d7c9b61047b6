-- ===== src/Db/Graph.antt =====
-- The table of friends as the graph that it stands for: which two users are friends, without the order
-- of the rows and the direction of each. Requests and friend lists are those of the graph.
use mathlib.Core.Bool.{Bool-set}
use mathlib.Core.Quot
use mathlib.Core.Quot.{Quot, Quot-set}
use coroutine_server.Prelude.{
  ℕ, suc, ◌+◌, ◌≤◌, ◌≡◌, ◌≢◌, refl, ap, ◌∙◌, Bool, true, false, ◌&&◌, not, List, [], ◌∷◌, ◌++◌,
  arith, ℤ, pos, leb_ℤ, ◌==ℤ◌, ==ℤ_iff, if◌then◌else◌, Bool-cases, inl, inr, map,
}
use coroutine_server.Db.{
  Db, User, Friend, Outcome, count_users, are_friends, add_friend, get_friend_list, contains,
  has_pair,
}
use coroutine_server.Db.Users.{AccountsValid}
use coroutine_server.Db.Friends.{are_friends-append, get_friend_list_lem, Answers}
use coroutine_server.Db.Messages.{Healthy}
use coroutine_server.Db.Membership.{has_uid, count_users-le}

-- Two tables answer the query for any two users alike.
abbrev pub SameGraph : List Friend → List Friend → Type 0
SameGraph fs gs = (a b : ℤ) → are_friends a b fs ≡ are_friends a b gs

abbrev pub Graph : Type 0
Graph = Quot SameGraph

abbrev pub row : ℤ → ℤ → Friend
row a b = record { uid = a; friend_uid = b }

pub SameGraph-append :
    (f : Friend) (fs gs : List Friend) → SameGraph fs gs → SameGraph (fs ++ f ∷ []) (gs ++ f ∷ [])
SameGraph-append f fs gs h a b =
    ground (arith, h a b, are_friends-append a b fs f, are_friends-append a b gs f)

unfoldable pub related : ℤ → ℤ → Graph → Bool
related a b = Quot.lift Bool-set (are_friends a b) (λ fs gs h. h a b)

unfoldable pub connect : ℤ → ℤ → Graph → Graph
connect a b =
    Quot.lift Quot-set (λ fs. Quot.mk (fs ++ row a b ∷ []))
      (λ fs gs h. Quot.sound (SameGraph-append (row a b) fs gs h))

-- The graph of a table.
abbrev pub graph : Db → Graph
graph db = Quot.mk db.friends

-- What a friend request does to the graph: who are registered, two, and no friends yet, become friends.
unfoldable pub request : (ℤ → Bool) → ℤ → ℤ → Graph → Bool × Graph
unfolding related connect
request registered a b g =
    if leb_ℤ (pos 1) a
      && leb_ℤ (pos 1) b
      && not (a ==ℤ b)
      && registered a
      && registered b
      && not (related a b g)
    then (true, connect a b g)
    else (false, g)

-- SQLite makes no error, and a UNION yields its rows in some order.
pub record Fine (o : Outcome) : Type 0 where
  pub healthy : Healthy o
  pub answers : Answers o

count_users-ge :
    (a b : ℤ) (us : List User)
    → a ≢ b
    → (if has_uid a us then 1 else 0) + (if has_uid b us then 1 else 0) ≤ count_users a b us
unfolding count_users has_uid
count_users-ge a b [] h = omega arith
count_users-ge a b (u ∷ us) h =
    ground (arith, count_users-ge a b us h, ==ℤ_iff (pos u.uid) a, ==ℤ_iff (pos u.uid) b)

has_pair-are_friends :
    (a b : ℤ) (fs : List Friend) → are_friends a b fs ≡ false → has_pair a b fs ≡ false
unfolding has_pair are_friends
has_pair-are_friends a b [] h = refl
has_pair-are_friends a b (f ∷ fs) h = ground (arith, has_pair-are_friends a b fs, h)

-- The checks of `AddFriend` by what they test.
unfoldable pub befriends : ℤ → ℤ → Db → Bool
befriends a b db =
    leb_ℤ (pos 1) a
    && leb_ℤ (pos 1) b
    && not (a ==ℤ b)
    && has_uid a db.users
    && has_uid b db.users
    && not (are_friends a b db.friends)

add_friend_lem :
    (o : Outcome) (a b : ℤ) (db : Db)
    → Healthy o
    → AccountsValid db
    → add_friend o a b db ≡ (
        if befriends a b db
        then (true, record db { friends = db.friends ++ row a b ∷ [] })
        else (false, db))
unfolding add_friend befriends
add_friend_lem o a b db h v = elim (Bool-cases (a ==ℤ b)) [
  | inl same ↦ ground (arith, same)
  | inr other ↦
      let distinct : a ≢ b = λ e. ground (arith, e, other, ==ℤ_iff a b) in
      ground (
        arith,
        other,
        h.prepared 0,
        h.prepared 1,
        h.prepared 2,
        h.ran 0,
        h.ran 1,
        h.ran 2,
        count_users-ge a b db.users distinct,
        count_users-le a b 1 db.next_uid db.users v.uids distinct,
        has_pair-are_friends a b db.friends,
      )
]

add_friend-request :
    (o : Outcome) (a b : ℤ) (db : Db)
    → Healthy o
    → AccountsValid db
    → let (done, g) = request (λ c. has_uid c db.users) a b (graph db) in
      ((add_friend o a b db).0 ≡ done)
      × (graph (add_friend o a b db).1 ≡ g)
      × ((add_friend o a b db).1.users ≡ db.users)
      × ((add_friend o a b db).1.next_uid ≡ db.next_uid)
unfolding request befriends
add_friend-request o a b db h v = elim (Bool-cases (befriends a b db)) [
  | inl yes_ ↦ ground (arith, add_friend_lem o a b db h v, yes_)
  | inr no_ ↦ ground (arith, add_friend_lem o a b db h v, no_)
]

-- A friend request, or whether a user is on the friend list of another.
pub data Query : Type 0 where
  asks : ℤ → ℤ → Query
  lists : ℕ → ℤ → Query

-- The queries of the program, with their answers.
unfoldable pub answer : Outcome → Query → Db → Bool × Db
answer o (asks a b) db = add_friend o a b db
answer o (lists n b) db = (contains b (get_friend_list o (pos (suc n)) db), db)

unfoldable pub answer_all : List (Outcome × Query) → Db → List Bool × Db
answer_all [] db = ([], db)
answer_all ((o, q) ∷ qs) db =
    let (a, db') = answer o q db in let (bs, last) = answer_all qs db' in (a ∷ bs, last)

-- The same queries on a graph.
unfoldable pub on_graph : (ℤ → Bool) → Query → Graph → Bool × Graph
on_graph registered (asks a b) g = request registered a b g
on_graph registered (lists n b) g = (related (pos (suc n)) b g, g)

unfoldable pub all_on_graph : (ℤ → Bool) → List Query → Graph → List Bool × Graph
all_on_graph registered [] g = ([], g)
all_on_graph registered (q ∷ qs) g =
    let (a, g') = on_graph registered q g in
    let (bs, last) = all_on_graph registered qs g' in (a ∷ bs, last)

abbrev pub AllFine : List (Outcome × Query) → Type 0
AllFine [] = Unit {0}
AllFine ((o, q) ∷ qs) = Fine o × AllFine qs

answer-on_graph :
    (o : Outcome) (q : Query) (db : Db)
    → Fine o
    → AccountsValid db
    → let (a, db') = answer o q db in
      ((a, graph db') ≡ on_graph (λ c. has_uid c db.users) q (graph db))
      × (db'.users ≡ db.users)
      × (db'.next_uid ≡ db.next_uid)
unfolding answer on_graph
answer-on_graph o (asks a b) db f v =
    let (same, after, users, next) = add_friend-request o a b db f.healthy v in
    (λ i. (same i, after i), users, next)
answer-on_graph o (lists n b) db f v =
    (unfold related in λ i. (get_friend_list_lem o n b db f.answers i, graph db), refl, refl)

-- While SQLite makes no error and uids and names are distinct, any friend requests and friend lists
-- are answered as on the graph of the table, and leave the table of the graph that they lead to. In
-- the graph neither the order of the rows nor the direction of a row is left: tables that answer alike
-- for any two users are one graph.
pub answer_all-all_on_graph :
    (qs : List (Outcome × Query)) (db : Db)
    → AllFine qs
    → AccountsValid db
    → let (bs, db') = answer_all qs db in
      (bs, graph db')
      ≡ all_on_graph (λ c. has_uid c db.users) (map (λ (q : Outcome × Query). q.1) qs) (graph db)
unfolding answer_all all_on_graph
answer_all-all_on_graph [] db f v = refl
answer_all-all_on_graph ((o, q) ∷ qs) db (f, fs) v =
    let (step, users, next) = answer-on_graph o q db f v in
    let rest = answer_all-all_on_graph qs (answer o q db).1 fs (ground (arith, v, users, next)) in
    let queries = map (λ (p : Outcome × Query). p.1) qs in
    let a = (answer o q db).0 in
    let after =
      rest
      ∙ ap (λ (us : List User). all_on_graph (λ c. has_uid c us) queries (graph (answer o q db).1))
          users in
    ap (λ (r : List Bool × Graph). (a ∷ r.0, r.1)) after
    ∙ ap
        (λ (p : Bool × Graph).
          let r = all_on_graph (λ c. has_uid c db.users) queries p.1 in (p.0 ∷ r.0, r.1))
        step

-- It does not matter who of the two asks.
pub connect_symm : (a b : ℤ) (g : Graph) → connect a b g ≡ connect b a g
unfolding connect are_friends
connect_symm a b =
    Quot.ind (λ g. Quot-set _ _)
      (λ fs. Quot.sound (λ c d.
        ground (arith, are_friends-append c d fs (row a b), are_friends-append c d fs (row b a))))
