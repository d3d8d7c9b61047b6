-- ===== src/Online/Tests.antt =====
-- The online map at concrete entries.
use coroutine_server.Prelude.{ℕ, ◌≡◌, refl, ◌==◌, Bool, none, [], ◌∷◌, pos}
use coroutine_server.Online.{Online, get_session_by_uid, erase}

abbrev two_online : Online
two_online = (pos 7, 0) ∷ (pos 8, 1) ∷ []

-- The second session has expired.
abbrev second_gone : ℕ → Bool
second_gone s = s == 1

taken_out : get_session_by_uid second_gone (pos 8) two_online ≡ (none, (pos 7, 0) ∷ [])
unfolding get_session_by_uid erase
taken_out = refl
