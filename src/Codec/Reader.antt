-- ===== src/Codec/Reader.antt =====
-- Reading values off a slice of bytes (`Buf`), and what the values need of `prost` and `bincode`.
use alpamayo.Prelude.{
  ℕ, ◌^◌, ◌<◌, ◌≡◌, refl, Option, none, some, Bool, true, false, List, [], ◌∷◌, ◌++◌, length, take,
  drop,
}

infixl 5 ◌>>=◌
abbrev pub ◌>>=◌ {ℓ κ} : {A : Type ℓ} {B : Type κ} → Option A → (A → Option B) → Option B
none >>= f = none
some a >>= f = f a

-- `encode_varint` and `decode_varint` of `prost`, over 64 bits.
pub record Varint : Type 0 where
  pub encode_varint : ℕ → List ℕ
  pub decode_varint : List ℕ → Option (ℕ × List ℕ)
  pub decode-encode :
      (n : ℕ) (rest : List ℕ)
      → n < 2 ^ 64
      → decode_varint (encode_varint n ++ rest) ≡ some (n, rest)
  pub encode_small : (n : ℕ) → n < 128 → encode_varint n ≡ n ∷ []

-- `serialize` and `deserialize` of `bincode` for an error: the bytes come back, and there is one at least.
pub record Bincode (E : Type 0) : Type 0 where
  pub serialize : E → List ℕ
  pub deserialize : List ℕ → Option E
  pub deserialize-serialize : (e : E) → deserialize (serialize e) ≡ some e
  pub serialize_some : (e : E) → 0 < length (serialize e)

-- `Buf::try_get_u8`.
abbrev pub try_get_u8 : List ℕ → Option (ℕ × List ℕ)
try_get_u8 [] = none
try_get_u8 (b ∷ bs) = some (b, bs)

-- `bool::then` with `Option::transpose`.
abbrev pub read_if : Bool → (List ℕ → Option (ℕ × List ℕ)) → List ℕ → Option (Option ℕ × List ℕ)
read_if false read bs = some (none, bs)
read_if true read bs = read bs >>= λ (n, rest). some (some n, rest)

pub append_nil : (bs : List ℕ) → bs ++ [] ≡ bs
append_nil [] = refl
append_nil (b ∷ bs) = rw (append_nil bs)

pub take_append : (xs ys : List ℕ) → take (length xs) (xs ++ ys) ≡ xs
take_append [] ys = take_none ys
  where
    take_none : (ys : List ℕ) → take 0 ys ≡ []
    take_none ys = refl
take_append (x ∷ xs) ys = rw (take_append xs ys)

pub drop_append : (xs ys : List ℕ) → drop (length xs) (xs ++ ys) ≡ ys
drop_append [] ys = refl
drop_append (x ∷ xs) ys = drop_append xs ys

pub take-eq : (n : ℕ) (xs ys : List ℕ) → length xs ≡ n → take n (xs ++ ys) ≡ xs
take-eq n xs ys e = rw (← e) (take_append xs ys)

pub drop-eq : (n : ℕ) (xs ys : List ℕ) → length xs ≡ n → drop n (xs ++ ys) ≡ ys
drop-eq n xs ys e = rw (← e) (drop_append xs ys)
