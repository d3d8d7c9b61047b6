-- ===== src/Client/Commands.antt =====
-- The lines that the user types: the words of a line, and the command that `main` of
-- TestClient/TestClient.cpp makes of it, with its checks. What only prints is `skip`.
use coroutine_server.Prelude.{
  ℕ, ◌+◌, ◌-◌, ◌*◌, ◌^◌, Bool, false, ◌&&◌, ◌||◌, not, Option, none, some, [], ◌∷◌, Bytes, codes,
  bytes_eq, ℤ, pos, negsuc, ltb, leb, ◌==◌, if◌then◌else◌,
}
use coroutine_server.Client.{validate_username, validate_password}

-- `std::isspace` in the default locale.
abbrev pub is_space : ℕ → Bool
is_space c = c == 32 || (leb 9 c && leb c 13)

abbrev pub is_digit : ℕ → Bool
is_digit c = leb 48 c && leb c 57

-- A text from its first character that the test refuses.
abbrev pub skip_while : (ℕ → Bool) → Bytes → Bytes
skip_while p [] = []
skip_while p (c ∷ s) = let rest = skip_while p s in if p c then rest else c ∷ s

abbrev pub take_while : (ℕ → Bool) → Bytes → Bytes
take_while p [] = []
take_while p (c ∷ s) = let rest = take_while p s in if p c then c ∷ rest else []

-- `iss >> word`, with the text left; it fails where no word is left.
unfoldable pub read_word : Bytes → Option (Bytes × Bytes)
read_word s =
    let t = skip_while is_space s in
    let word = take_while (λ c. not (is_space c)) t in
    elim word [ [] ↦ none | c ∷ more ↦ some (c ∷ more, skip_while (λ d. not (is_space d)) t) ]

abbrev pub skip_one : Bytes → Bytes
skip_one [] = []
skip_one (c ∷ s) = s

abbrev pub digits : ℕ → Bytes → ℕ
digits n [] = n
digits n (c ∷ s) = digits (n * 10 + (c - 48)) s

-- `iss >> number` for an `int64_t`: a sign and digits; it fails on a number out of range.
unfoldable pub read_number : Bytes → Option (ℤ × Bytes)
read_number s =
    let t = skip_while is_space s in
    let negative : Bool = elim t [ [] ↦ false | c ∷ _ ↦ c == 45 ] in
    let has_sign : Bool = elim t [ [] ↦ false | c ∷ _ ↦ c == 45 || c == 43 ] in
    let u : Bytes = if has_sign then skip_one t else t in
    let n = digits 0 (take_while is_digit u) in
    let rest = skip_while is_digit u in
    elim (take_while is_digit u) [
      | [] ↦ none
      | _ ∷ _ ↦
          if negative
          then if n == 0
            then some (pos 0, rest)
            else if leb n (2 ^ 63)
            then some (negsuc (n - 1), rest)
            else none
          else if ltb n (2 ^ 63)
          then some (pos n, rest)
          else none
    ]

pub data Command : Type 0 where
  skip friends offline reconnect quit : Command
  registers : Bytes → Bytes → Command
  logs_in : Bytes → Bytes → Command
  adds_friend : ℤ → Command
  chats : ℤ → Bytes → Command

-- A name and a password from the line, checked.
unfoldable pub credentials : (Bytes → Bytes → Command) → Bytes → Command
credentials command s = elim (read_word s) [
  | none ↦ skip
  | some (user, s') ↦ elim (read_word s') [
    | none ↦ skip
    | some (pass, _) ↦
        if not (validate_username user) || not (validate_password pass)
        then skip
        else command user pass
  ]
]

-- `/friend add <uid>`
unfoldable pub friend_command : Bytes → Command
friend_command s = elim (read_word s) [
  | none ↦ skip
  | some (sub, s') ↦
      if bytes_eq sub (codes "add")
      then elim (read_number s') [ none ↦ skip | some (uid, _) ↦ adds_friend uid ]
      else skip
]

-- The content of a chat message: what is left of the line, from its first character that is neither a
-- space nor a tab; if there is none, all of it.
unfoldable pub chat_content : Bytes → Bytes
chat_content content = elim (skip_while (λ c. c == 32 || c == 9) content) [
  | [] ↦ content
  | c ∷ s ↦ c ∷ s
]

-- `/chat <uid> <message>`
unfoldable pub chat_command : Bytes → Command
chat_command s = elim (read_number s) [
  | none ↦ skip
  | some (to_uid, rest) ↦ elim (chat_content rest) [
    | [] ↦ skip
    | c ∷ more ↦ chats to_uid (c ∷ more)
  ]
]

-- A line while the client is connected.
unfoldable pub command : Bytes → Command
command line = elim (read_word line) [
  | none ↦ skip
  | some (cmd, s) ↦
      if bytes_eq cmd (codes "/register")
      then credentials registers s
      else if bytes_eq cmd (codes "/login")
      then credentials logs_in s
      else if bytes_eq cmd (codes "/friends")
      then friends
      else if bytes_eq cmd (codes "/friend")
      then friend_command s
      else if bytes_eq cmd (codes "/chat")
      then chat_command s
      else if bytes_eq cmd (codes "/offline")
      then offline
      else if bytes_eq cmd (codes "/reconnect")
      then reconnect
      else if bytes_eq cmd (codes "/quit")
      then quit
      else skip
]
