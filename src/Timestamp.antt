-- ===== src/Timestamp.antt =====
-- `Timestamp` (CoroutineServer/Timestamp.h), the text before each line of the log. Of the C++
-- library it takes the clock, as the number of its ticks since the epoch, and `localtime_s`, as a
-- function.
mod Tests
use coroutine_server.Prelude.{
  ℕ, zero, suc, ◌+◌, ◌-◌, ◌*◌, ◌/◌, ◌%◌, ◌≤◌, ◌<◌, ◌≡◌, refl, ap, ◌∙◌, Option, none, some, List, [],
  ◌∷◌, ◌++◌, Bytes, codes, c_str, blit, ltb, ◌==◌, ◌&&◌, if◌then◌else◌, length, take, drop,
  replicate, arith,
}

-- `struct tm`
pub record Tm : Type 0 where
  pub tm_hour : ℕ
  pub tm_min : ℕ
  pub tm_sec : ℕ

-- What `localtime_s` promises of the fields; a leap second is the 60th.
pub record IsTime (t : Tm) : Type 0 where
  pub hour_bound : t.tm_hour ≤ 23
  pub min_bound : t.tm_min ≤ 59
  pub sec_bound : t.tm_sec ≤ 60

abbrev pub digit : ℕ → ℕ
digit n = b'0' + n % 10

-- `%H`, `%M` and `%S`
abbrev pub two_digits : ℕ → Bytes
two_digits n = digit (n / 10) ∷ digit n ∷ []

-- `std::strftime(buf, …, "%H:%M:%S", …)` into a buffer of zeros.
unfoldable pub strftime : ℕ → Tm → Bytes
strftime size t =
    let text = two_digits t.tm_hour ++ b':' ∷ two_digits t.tm_min ++ b':' ∷ two_digits t.tm_sec in
    if ltb (length text) size then blit (replicate size 0) 0 text else replicate size 0

-- A number below 1000 in decimal.
unfoldable pub decimal : ℕ → Bytes
decimal n =
    if ltb n 10
    then digit n ∷ []
    else if ltb n 100
    then two_digits n
    else digit (n / 100) ∷ two_digits n

-- `std::setfill('0') << std::setw(w)`
abbrev pub padded : ℕ → Bytes → Bytes
padded w s = replicate (w - length s) b'0' ++ s

-- `Timestamp`, at the clock's tick `now` where `per_ms` ticks are a millisecond.
unfoldable pub timestamp : (ℕ → Tm) → ℕ → ℕ → Bytes
unfolding strftime decimal
timestamp localtime per_ms now =
    let t = now / (1000 * per_ms) in
    let ms = now / per_ms % 1000 in
    let buf = strftime 32 (localtime t) in
    b'[' ∷ c_str buf ++ b'.' ∷ padded 3 (decimal ms) ++ b']' ∷ []

-- The number that decimal digits write.
abbrev value : ℕ → Bytes → ℕ
value acc [] = acc
value acc (c ∷ s) = value (acc * 10 + (c - b'0')) s

abbrev number_at : ℕ → ℕ → Bytes → ℕ
number_at at w s = value 0 (take w (drop at s))

-- A reader of `[HH:MM:SS.mmm]`, by the places of the fields.
unfoldable pub read_timestamp : Bytes → Tm × ℕ
read_timestamp s = (
  record { tm_hour = number_at 1 2 s; tm_min = number_at 4 2 s; tm_sec = number_at 7 2 s },
  number_at 10 3 s,
)

digit-c_str : (n : ℕ) (s : Bytes) → c_str (digit n ∷ s) ≡ digit n ∷ c_str s
unfolding c_str
digit-c_str n s = ground arith

colon-c_str : (s : Bytes) → c_str (b':' ∷ s) ≡ b':' ∷ c_str s
unfolding c_str
colon-c_str s = refl

zeros-c_str : (k : ℕ) → c_str (replicate (k + 1) 0) ≡ []
unfolding c_str
zeros-c_str k = ground arith

-- The text of the time fits into 32 bytes.
strftime-c_str :
    (t : Tm)
    → c_str (strftime 32 t)
      ≡ two_digits t.tm_hour ++ b':' ∷ two_digits t.tm_min ++ b':' ∷ two_digits t.tm_sec
unfolding strftime blit c_str
strftime-c_str t = simp (digit-c_str, colon-c_str, zeros-c_str 23)

padded-decimal : (n : ℕ) → n < 1000 → padded 3 (decimal n) ≡ digit (n / 100) ∷ two_digits n
unfolding decimal
padded-decimal n h = ground arith

-- The stamp, field by field.
abbrev text : Tm → ℕ → Bytes
text t ms =
    b'[' ∷ (two_digits t.tm_hour ++ b':' ∷ two_digits t.tm_min ++ b':' ∷ two_digits t.tm_sec)
    ++ b'.' ∷ (digit (ms / 100) ∷ two_digits ms)
    ++ b']' ∷ []

timestamp_text :
    (localtime : ℕ → Tm) (per_ms now : ℕ)
    → timestamp localtime per_ms now
      ≡ text (localtime (now / (1000 * per_ms))) (now / per_ms % 1000)
unfolding timestamp
timestamp_text localtime per_ms now = rw (
  strftime-c_str (localtime (now / (1000 * per_ms))),
  padded-decimal (now / per_ms % 1000) (omega arith),
)

two_digits-value : (n : ℕ) → n < 100 → value 0 (two_digits n) ≡ n
two_digits-value n h = omega arith

three_digits-value : (n : ℕ) → n < 1000 → value 0 (digit (n / 100) ∷ two_digits n) ≡ n
three_digits-value n h = omega arith

read_timestamp-text :
    (t : Tm) (ms : ℕ) → IsTime t → ms < 1000 → read_timestamp (text t ms) ≡ (t, ms)
unfolding read_timestamp
read_timestamp-text t ms v h = rw (
  two_digits-value t.tm_hour (omega (arith, v.hour_bound)),
  two_digits-value t.tm_min (omega (arith, v.min_bound)),
  two_digits-value t.tm_sec (omega (arith, v.sec_bound)),
  three_digits-value ms h,
)

-- Where localtime_s gives the fields of a time of day, the stamp is 14 bytes long, and reading its
-- fields back gives the local time of the tick, with the milliseconds.
pub read_timestamp-timestamp :
    (localtime : ℕ → Tm) (per_ms now : ℕ)
    → IsTime (localtime (now / (1000 * per_ms)))
    → let stamp = timestamp localtime per_ms now in
      (length stamp ≡ 14)
      × (read_timestamp stamp ≡ (localtime (now / (1000 * per_ms)), now / per_ms % 1000))
read_timestamp-timestamp localtime per_ms now v =
    let t = localtime (now / (1000 * per_ms)) in
    let ms = now / per_ms % 1000 in
    let same = timestamp_text localtime per_ms now in
    (
      ap length same,
      ap (λ (s : Bytes). read_timestamp s) same ∙ read_timestamp-text t ms v (omega arith),
    )
