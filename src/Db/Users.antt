-- ===== src/Db/Users.antt =====
-- Accounts: registration and login.
use coroutine_server.Prelude.{
  ℕ, zero, suc, ◌+◌, ◌/◌, ◌%◌, ◌≤◌, ◌<◌, ◌≡◌, ◌≢◌, ◌↔◌, refl, ap, ◌∙◌, true, false, none, some,
  List, [], ◌∷◌, ◌++◌, Bytes, arith, ℤ, pos, bytes_eq_iff, bytes_eq_refl, c_str, Option-cases, inl,
  inr,
}
use coroutine_server.Db.{
  Db, User, Outcome, is_empty, hex, hex_digit, salt, simple_hash, find_user, register_user,
  login_user,
}

-- The digits hold no zero byte, so binding the hash as a C string keeps it whole.
c_str-append : (xs ys : Bytes) → c_str xs ≡ xs → c_str (xs ++ ys) ≡ xs ++ c_str ys
unfolding c_str
c_str-append [] ys e = refl
c_str-append (zero ∷ xs) ys e = cc
c_str-append (suc x ∷ xs) ys e = ap (λ zs. suc x ∷ zs) (c_str-append xs ys (cc))

c_str-digit : (x : ℕ) → 0 < x → c_str (x ∷ []) ≡ x ∷ []
unfolding c_str
c_str-digit zero h = absurd (omega arith)
c_str-digit (suc x) h = refl

hex_digit-pos : (d : ℕ) → 0 < hex_digit d
hex_digit-pos d = ground arith

c_str-hex : (k n : ℕ) → c_str (hex k n) ≡ hex k n
unfolding hex
c_str-hex zero n = unfold c_str in refl
c_str-hex (suc k) n =
    c_str-append (hex k (n / 16)) (hex_digit (n % 16) ∷ []) (c_str-hex k (n / 16))
    ∙ ap (λ zs. hex k (n / 16) ++ zs) (c_str-digit _ (hex_digit-pos (n % 16)))

find_user-append_ne :
    (name : Bytes) (us : List User) (u : User)
    → u.username ≢ name
    → find_user name (us ++ u ∷ []) ≡ find_user name us
unfolding find_user
find_user-append_ne name [] u h = ground (arith, bytes_eq_iff u.username name)
find_user-append_ne name (v ∷ us) u h = rw (find_user-append_ne name us u h)

find_user-append_self :
    (us : List User) (u : User)
    → find_user u.username us ≡ none
    → find_user u.username (us ++ u ∷ []) ≡ some u
unfolding find_user
find_user-append_self [] u h = rw (bytes_eq_refl u.username)
find_user-append_self (v ∷ us) u h = ground (arith, find_user-append_self us u)

-- The row that a registration adds.
abbrev pub new_user : (Bytes → ℕ) → Bytes → Bytes → Db → User
new_user hasher name password db = record {
  uid = db.next_uid;
  username = c_str name;
  password_hash = simple_hash hasher password;
}

module _ (hasher : Bytes → ℕ) where
  c_str-simple_hash :
      (password : Bytes) → c_str (simple_hash hasher password) ≡ simple_hash hasher password
  unfolding simple_hash
  c_str-simple_hash password = c_str-hex 16 (hasher (salt ++ password))

  -- What a successful registration has found and written.
  register_user-true :
      (o : Outcome) (name password : Bytes) (db db' : Db)
      → register_user hasher o name password db ≡ (true, db')
      → (is_empty name ≡ false)
        × (is_empty password ≡ false)
        × (find_user (c_str name) db.users ≡ none)
        × (db' ≡ record db {
          users = db.users ++ new_user hasher name password db ∷ [];
          next_uid = db.next_uid + 1;
        })
  unfolding register_user
  register_user-true o name password db db' e = ground (arith, c_str-simple_hash password)

  -- A user who has registered can log in with the same name and password, and gets the uid of the
  -- new account, if SQLite runs the login's query.
  pub login_user-register_user :
      (o o' : Outcome) (name password : Bytes) (db db' : Db)
      → register_user hasher o name password db ≡ (true, db')
      → o'.prepare 0 ≡ true
      → o'.runs 0 ≡ true
      → login_user hasher o' name password db' ≡ (true, pos db.next_uid)
  unfolding login_user
  login_user-register_user o o' name password db db' e p r =
      let (some_name, some_password, fresh, after) = register_user-true o name password db db' e in
      ground (
        arith,
        some_name,
        some_password,
        after,
        find_user-append_self db.users (new_user hasher name password db) fresh,
        bytes_eq_refl (simple_hash hasher password),
      )

  -- A registration of a name that is taken fails and changes nothing, whatever SQLite answers.
  pub register_user-taken :
      (o : Outcome) (name password : Bytes) (u : User) (db : Db)
      → find_user (c_str name) db.users ≡ some u
      → register_user hasher o name password db ≡ (false, db)
  unfolding register_user
  register_user-taken o name password u db e = ground arith

  -- A login succeeds exactly for the uid of a row with that name whose hash is that of the given
  -- password, if SQLite runs the query and neither argument is empty.
  pub login_user_iff :
      (o : Outcome) (name password : Bytes) (uid : ℤ) (db : Db)
      → is_empty name ≡ false
      → is_empty password ≡ false
      → o.prepare 0 ≡ true
      → o.runs 0 ≡ true
      → (login_user hasher o name password db ≡ (true, uid)) ↔ (
          (u : User) × (find_user (c_str name) db.users ≡ some u)
          × (u.password_hash ≡ simple_hash hasher password)
          × (uid ≡ pos u.uid))
  unfolding login_user
  login_user_iff o name password uid db hn hp p r =
      elim (Option-cases (find_user (c_str name) db.users)) [
        | inl missing ↦
            (λ e. absurd (ground (arith, missing)), λ w. absurd (ground (arith, missing, w.1)))
        | inr (u, found) ↦ (
          λ e. (
            u,
            found,
            ground (arith, found, bytes_eq_iff (simple_hash hasher password) u.password_hash),
            ground (arith, found, bytes_eq_iff (simple_hash hasher password) u.password_hash),
          ),
          λ w. ground (arith, found, w, bytes_eq_iff (simple_hash hasher password) u.password_hash),
        )
      ]

-- The uids of the rows rise from 1 and stay below the next one.
abbrev pub Uids : ℕ → ℕ → List User → Type 0
Uids low high [] = low ≤ high
Uids low high (u ∷ us) = (low ≤ u.uid) × Uids (u.uid + 1) high us

-- No two rows share a name.
abbrev pub DistinctNames : List User → Type 0
DistinctNames [] = Unit {0}
DistinctNames (u ∷ us) = (find_user u.username us ≡ none) × DistinctNames us

pub record AccountsValid (db : Db) : Type 0 where
  pub uids : Uids 1 db.next_uid db.users
  pub names : DistinctNames db.users

Uids-append :
    (low : ℕ) (us : List User) (u : User) → Uids low u.uid us → Uids low (u.uid + 1) (us ++ u ∷ [])
Uids-append low [] u h = (h, omega arith)
Uids-append low (v ∷ us) u h = (h.0, Uids-append (v.uid + 1) us u h.1)

DistinctNames-append :
    (us : List User) (u : User)
    → find_user u.username us ≡ none
    → DistinctNames us
    → DistinctNames (us ++ u ∷ [])
unfolding find_user
DistinctNames-append [] u h d = (refl, tt)
DistinctNames-append (v ∷ us) u h d = (
  find_user-append_ne v.username us u (λ e. ground (arith, bytes_eq_iff v.username u.username))
      ∙ d.0,
  DistinctNames-append us u (ground arith) d.1,
)

-- A registration, successful or not, keeps uids ascending and below the next one, and names distinct.
pub register_user-AccountsValid :
    (hasher : Bytes → ℕ) (o : Outcome) (name password : Bytes) (db : Db)
    → AccountsValid db
    → AccountsValid (register_user hasher o name password db).1
unfolding register_user
register_user-AccountsValid hasher o name password db v =
    let u = record (new_user hasher name password db) {
      password_hash = c_str (simple_hash hasher password);
    } in
    ground (arith, Uids-append 1 db.users u v.uids, DistinctNames-append db.users u)
