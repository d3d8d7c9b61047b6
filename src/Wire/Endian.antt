-- ===== src/Wire/Endian.antt =====
-- What the wire format takes from outside: Boost.Asio's `host_to_network_short` and
-- `network_to_host_short`, and the order of a `short`'s two bytes in the host's memory, which
-- `memcpy` exposes.
use coroutine_server.Prelude.{ℕ, ◌+◌, ◌*◌, ◌/◌, ◌%◌, ◌<◌, ◌≡◌, refl, [], ◌∷◌, Bytes, arith}

pub record ByteOrder : Type 0 where
  pub host_to_network_short : ℕ → ℕ
  pub network_to_host_short : ℕ → ℕ
  -- The object representation of a `short`, first byte first, and back.
  pub short_bytes : ℕ → Bytes
  pub bytes_short : ℕ → ℕ → ℕ
  -- Network byte order puts the high byte first.
  pub to_network :
      (w : ℕ) → w < 65536 → short_bytes (host_to_network_short w) ≡ (w / 256) ∷ (w % 256) ∷ []
  pub from_network :
      (h l : ℕ) → h < 256 → l < 256 → network_to_host_short (bytes_short h l) ≡ h * 256 + l

abbrev pub swap : ℕ → ℕ
swap w = (w % 256) * 256 + w / 256

pub swap-low_first :
    (w : ℕ) → w < 65536 → (swap w % 256) ∷ (swap w / 256) ∷ [] ≡ (w / 256) ∷ (w % 256) ∷ []
swap-low_first w h = ground (arith, low, high)
  where
    low : swap w % 256 ≡ w / 256
    low = omega arith

    high : swap w / 256 ≡ w % 256
    high = omega arith

pub swap-read : (h l : ℕ) → h < 256 → l < 256 → swap (l * 256 + h) ≡ h * 256 + l
swap-read h l p q = omega arith

pub high_first : (w : ℕ) → w < 65536 → (w / 256) ∷ (w % 256) ∷ [] ≡ (w / 256) ∷ (w % 256) ∷ []
high_first w h = refl

pub high_first-read : (h l : ℕ) → h < 256 → l < 256 → h * 256 + l ≡ h * 256 + l
high_first-read h l p q = refl

-- A little-endian host, as the program's platform is: both functions swap the bytes.
abbrev pub little_endian : ByteOrder
little_endian = record {
  host_to_network_short = swap;
  network_to_host_short = swap;
  short_bytes = λ w. (w % 256) ∷ (w / 256) ∷ [];
  bytes_short = λ a b. b * 256 + a;
  to_network = swap-low_first;
  from_network = λ h l p q. swap-read h l p q;
}

-- A big-endian host, where both functions do nothing.
abbrev pub big_endian : ByteOrder
big_endian = record {
  host_to_network_short = λ w. w;
  network_to_host_short = λ w. w;
  short_bytes = λ w. (w / 256) ∷ (w % 256) ∷ [];
  bytes_short = λ a b. a * 256 + b;
  to_network = high_first;
  from_network = high_first-read;
}
