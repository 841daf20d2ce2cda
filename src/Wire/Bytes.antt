-- ===== src/Wire/Bytes.antt =====
-- Integers in memory. The program builds for x86 only (include/bmdfh/benchmark.hpp refuses anything
-- else), so an integer of k bytes is stored with its low byte first, and htons, htonl and
-- __builtin_bswap64 reverse its bytes. A byte is a number below 256.
use native.Mathlib.Nat.{pow-suc}
use mathlib.Core.List.{reverse-reverse}
use binary_market_data_feed.Prelude.{
  ℕ, zero, suc, ◌+◌, ◌*◌, ◌/◌, ◌%◌, ◌^◌, ◌<◌, ◌≡◌, refl, ap, ◌∙◌, subst, List, [], ◌∷◌, reverse,
  arith, length, length-reverse, All, All-reverse,
}

abbrev pub IsByte : ℕ → Type 0
IsByte b = b < 256

-- The bytes of a stored integer of `k` bytes, and the integer that stored bytes are.
unfoldable pub le_bytes : ℕ → ℕ → List ℕ
le_bytes zero v = []
le_bytes (suc k) v = v % 256 ∷ le_bytes k (v / 256)

unfoldable pub le_value : List ℕ → ℕ
le_value [] = 0
le_value (b ∷ bs) = b + 256 * le_value bs

unfoldable pub bswap : ℕ → ℕ → ℕ
unfolding le_bytes le_value
bswap k v = le_value (reverse (le_bytes k v))

-- host_to_network_u64 and network_to_host_u64.
abbrev pub host_to_network_u64 : ℕ → ℕ
host_to_network_u64 v = bswap 8 v

abbrev pub network_to_host_u64 : ℕ → ℕ
network_to_host_u64 v = bswap 8 v

abbrev pub htonl : ℕ → ℕ
htonl v = bswap 4 v

abbrev pub ntohl : ℕ → ℕ
ntohl v = bswap 4 v

abbrev pub htons : ℕ → ℕ
htons v = bswap 2 v

abbrev pub ntohs : ℕ → ℕ
ntohs v = bswap 2 v

pub length-le_bytes : (k v : ℕ) → length (le_bytes k v) ≡ k
unfolding le_bytes
length-le_bytes zero v = refl
length-le_bytes (suc k) v = ap suc (length-le_bytes k (v / 256))

pub le_bytes-IsByte : (k v : ℕ) → All IsByte (le_bytes k v)
unfolding le_bytes
le_bytes-IsByte zero v = tt
le_bytes-IsByte (suc k) v = (omega arith, le_bytes-IsByte k (v / 256))

pub le_value-le_bytes : (k v : ℕ) → v < 256 ^ k → le_value (le_bytes k v) ≡ v
unfolding le_bytes le_value
le_value-le_bytes zero v h = omega arith
le_value-le_bytes (suc k) v h =
    omega (arith, le_value-le_bytes k (v / 256) (omega (arith, pow-suc 256 k)))

pub le_value-lt : (bs : List ℕ) → All IsByte bs → le_value bs < 256 ^ length bs
unfolding le_value
le_value-lt [] h = omega arith
le_value-lt (b ∷ bs) h = omega (arith, le_value-lt bs h.1, pow-suc 256 (length bs))

pub le_bytes-le_value :
    (k : ℕ) (bs : List ℕ) → All IsByte bs → length bs ≡ k → le_bytes k (le_value bs) ≡ bs
unfolding le_bytes le_value
le_bytes-le_value zero [] h e = refl
le_bytes-le_value zero (b ∷ bs) h e = absurd (omega arith)
le_bytes-le_value (suc k) [] h e = absurd (omega arith)
le_bytes-le_value (suc k) (b ∷ bs) h e =
    let head : (b + 256 * le_value bs) % 256 ≡ b = omega arith in
    let tail : (b + 256 * le_value bs) / 256 ≡ le_value bs = omega arith in
    rw (head, tail) (ap (◌∷◌ b) (le_bytes-le_value k bs h.1 (omega arith)))

-- What is stored of a swapped integer is the bytes of the integer, the high byte first.
pub le_bytes-bswap : (k v : ℕ) → le_bytes k (bswap k v) ≡ reverse (le_bytes k v)
unfolding bswap
le_bytes-bswap k v =
    le_bytes-le_value k (reverse (le_bytes k v))
      (All-reverse IsByte (le_bytes k v) (le_bytes-IsByte k v))
      (length-reverse (le_bytes k v) ∙ length-le_bytes k v)

pub bswap-bswap : (k v : ℕ) → v < 256 ^ k → bswap k (bswap k v) ≡ v
bswap-bswap k v h =
    unfold bswap in
    rw (le_bytes-bswap k v, reverse-reverse (le_bytes k v)) (le_value-le_bytes k v h)

pub bswap-lt : (k v : ℕ) → bswap k v < 256 ^ k
unfolding bswap
bswap-lt k v =
    subst (λ (n : ℕ). le_value (reverse (le_bytes k v)) < 256 ^ n)
      (length-reverse (le_bytes k v) ∙ length-le_bytes k v)
      (le_value-lt (reverse (le_bytes k v))
        (All-reverse IsByte (le_bytes k v) (le_bytes-IsByte k v)))
