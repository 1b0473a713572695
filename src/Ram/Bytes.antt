-- ===== src/Ram/Bytes.antt =====
-- Loads and stores of several bytes on the array below the accesses.
use native.Mathlib.Nat.{pow-suc}
use here.Base.{arith, inl, refl, suc, update, zero, ℕ, ◌%◌, ◌+◌, ◌/◌, ◌<◌, ◌^◌, ◌≡◌, ◌≤◌, ◌⊎◌}
use here.Ram.{load_bytes, store_bytes}

-- Every element is a byte.
abbrev pub IsBytes : (ℕ → ℕ) → Type 0
IsBytes d = (i : ℕ) → d i < 256

pub store_bytes-outside :
    (n : ℕ) (d : ℕ → ℕ) (a v i : ℕ) → (i < a) ⊎ (a + n ≤ i) → store_bytes n d a v i ≡ d i
unfolding store_bytes
store_bytes-outside zero d a v i h = refl
store_bytes-outside (suc n) d a v i h =
    ground (arith, store_bytes-outside n (update d a (v % 256)) (a + 1) (v / 256) i)

pub load_bytes_ext :
    (n : ℕ) (d e : ℕ → ℕ) (a : ℕ)
    → ((i : ℕ) → a ≤ i → i < a + n → d i ≡ e i)
    → load_bytes n d a ≡ load_bytes n e a
unfolding load_bytes
load_bytes_ext zero d e a h = refl
load_bytes_ext (suc n) d e a h = omega (
  arith,
  h a (omega arith) (omega arith),
  load_bytes_ext n d e (a + 1) (λ i p q. h i (omega arith) (omega arith)),
)

pub load_bytes-store_bytes :
    (n : ℕ) (d : ℕ → ℕ) (a v : ℕ) → v < 256 ^ n → load_bytes n (store_bytes n d a v) a ≡ v
unfolding load_bytes store_bytes
load_bytes-store_bytes zero d a v h = omega arith
load_bytes-store_bytes (suc n) d a v h = ground (
  arith,
  pow-suc 256 n,
  load_bytes-store_bytes n (update d a (v % 256)) (a + 1) (v / 256),
  store_bytes-outside n (update d a (v % 256)) (a + 1) (v / 256) a (inl (omega arith)),
)

pub load_bytes-lt : (n : ℕ) (d : ℕ → ℕ) (a : ℕ) → IsBytes d → load_bytes n d a < 256 ^ n
unfolding load_bytes
load_bytes-lt zero d a h = omega arith
load_bytes-lt (suc n) d a h = omega (arith, pow-suc 256 n, h a, load_bytes-lt n d (a + 1) h)

update-IsBytes : (d : ℕ → ℕ) (a v : ℕ) → IsBytes d → IsBytes (update d a (v % 256))
update-IsBytes d a v h i = ground (arith, h i)

pub store_bytes-IsBytes : (n : ℕ) (d : ℕ → ℕ) (a v : ℕ) → IsBytes d → IsBytes (store_bytes n d a v)
unfolding store_bytes
store_bytes-IsBytes zero d a v h = h
store_bytes-IsBytes (suc n) d a v h =
    store_bytes-IsBytes n (update d a (v % 256)) (a + 1) (v / 256) (update-IsBytes d a v h)
