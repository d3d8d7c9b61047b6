-- ===== src/Timestamp/Tests.antt =====
-- A stamp at 23:07:05.042.
use coroutine_server.Prelude.{ℕ, ◌*◌, ◌/◌, ◌%◌, ◌≡◌, refl, codes, c_str, blit, length, arith}
use coroutine_server.Timestamp.{Tm, IsTime, timestamp, read_timestamp, read_timestamp-timestamp}

abbrev utc : ℕ → Tm
utc t = record { tm_hour = t / 3600 % 24; tm_min = t / 60 % 60; tm_sec = t % 60 }

late : timestamp utc 10000 832250420000 ≡ codes "[23:07:05.042]"
unfolding timestamp c_str blit
late = refl

utc-IsTime : (t : ℕ) → IsTime (utc t)
utc-IsTime t = ground arith

read_timestamp-timestamp_example :
    let stamp = timestamp utc 10000 832250420000 in
    (length stamp ≡ 14)
    × (read_timestamp stamp ≡ (utc (832250420000 / (1000 * 10000)), 832250420000 / 10000 % 1000))
read_timestamp-timestamp_example =
    read_timestamp-timestamp utc 10000 832250420000 (utc-IsTime (832250420000 / (1000 * 10000)))
