-- ===== src/Provider/Cache.antt =====
-- server/provider/interface.go and converters.go: the cache of blocks and its keys, and the calls
-- that read and write it.
use rosetta_images.Base.{
  Bool, if◌then◌else◌, ℕ, zero, suc, ◌+◌, ◌*◌, ◌/◌, ◌%◌, ◌^◌, ◌<◌, ◌≡◌, ◌⊎◌, sym, ap, ◌≡⟨◌⟩◌, ◌∎,
  Option, none, some, [], ◌∷◌, arith, Bytes, Result, ok, err,
}
use rosetta_images.Failure.{Failure}
use rosetta_images.Api.{Block}

-- The LRU cache: `contents` says what it holds. It may forget any block at any call, and
-- reading may move a block to the front.
pub record BlocksCache (C : Type 0) : Type 0 where
  pub get : Bytes → C → Option Block × C
  pub put : Bytes → Block → C → C
  pub empty : C
  pub contents : C → Bytes → Option Block
  pub get_found : (k : Bytes) (c : C) → (get k c).0 ≡ contents c k
  pub get_contents :
      (k j : Bytes) (c : C) {b : Block} → contents (get k c).1 j ≡ some b → contents c j ≡ some b
  pub put_contents :
      (k j : Bytes) (v : Block) (c : C) {b : Block}
      → contents (put k v c) j ≡ some b
      → ((k ≡ j) × (v ≡ b)) ⊎ (contents c j ≡ some b)
  pub empty_contents : (k : Bytes) → contents empty k ≡ none

-- A method of the provider: it returns a value or an error, and changes the cache.
abbrev pub Action : Type 0 → Type 0 → Type 0
Action C A = C → Result Failure A × C

abbrev pub returns : {A C : Type 0} → Result Failure A → Action C A
returns r c = (r, c)

-- An early return with an error.
abbrev pub fails_if : {C : Type 0} → Bool → Failure → Action C (Unit {0})
fails_if b e c = (if b then err e else ok tt, c)

infixl 5 ◌>>=◌ ◌>>◌
abbrev pub ◌>>=◌ : {C A B : Type 0} → Action C A → (A → Action C B) → Action C B
◌>>=◌ m f c = let (r, c') = m c in elim r [ ok a ↦ f a c' | err e ↦ (err e, c') ]

abbrev pub ◌>>◌ : {C B : Type 0} → Action C (Unit {0}) → Action C B → Action C B
m >> k = m >>= λ _. k

-- `binary.LittleEndian.PutUint64` writes eight such bytes.
unfoldable pub little_endian : ℕ → ℕ → Bytes
little_endian zero n = []
little_endian (suc width) n = (n % 256) ∷ little_endian width (n / 256)

unfoldable pub block_nonce_to_bytes : ℕ → Bytes
unfolding little_endian
block_nonce_to_bytes nonce = little_endian 8 nonce

read_little_endian : Bytes → ℕ
read_little_endian [] = 0
read_little_endian (b ∷ s) = b + 256 * read_little_endian s

read_little_endian-little_endian :
    (width n : ℕ) → n < 256 ^ width → read_little_endian (little_endian width n) ≡ n
unfolding little_endian read_little_endian
read_little_endian-little_endian zero n h = omega arith
read_little_endian-little_endian (suc width) n h =
    omega (arith, read_little_endian-little_endian width (n / 256) (omega arith))

-- The keys of the cache: two different uint64 nonces have different keys.
pub block_nonce_to_bytes_lem :
    (n m : ℕ) → n < 2 ^ 64 → m < 2 ^ 64 → block_nonce_to_bytes n ≡ block_nonce_to_bytes m → n ≡ m
unfolding block_nonce_to_bytes
block_nonce_to_bytes_lem n m hn hm e =
    let read_n = read_little_endian-little_endian 8 n hn in
    let read_m = read_little_endian-little_endian 8 m hm in
    n
    ≡⟨ sym read_n ⟩ read_little_endian (little_endian 8 n)
    ≡⟨ ap read_little_endian e ⟩ read_little_endian (little_endian 8 m)
    ≡⟨ read_m ⟩ m ∎
