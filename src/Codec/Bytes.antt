-- ===== src/Codec/Bytes.antt =====
-- `to_be_bytes` and `from_be_bytes` of the standard library, for an integer of `w` bytes.
use alpamayo.Prelude.{
  ℕ, zero, suc, ◌+◌, ◌*◌, ◌/◌, ◌%◌, ◌^◌, ◌<◌, ◌≡◌, refl, ◌∙◌, List, [], ◌∷◌, ◌++◌, arith, length,
  length-append,
}

unfoldable pub to_be_bytes : ℕ → ℕ → List ℕ
to_be_bytes zero x = []
to_be_bytes (suc w) x = to_be_bytes w (x / 256) ++ (x % 256 ∷ [])

unfoldable pub from_be : ℕ → List ℕ → ℕ
from_be acc [] = acc
from_be acc (b ∷ bs) = from_be (acc * 256 + b) bs

pub length-to_be_bytes : (w x : ℕ) → length (to_be_bytes w x) ≡ w
unfolding to_be_bytes
length-to_be_bytes zero x = refl
length-to_be_bytes (suc w) x =
    omega (
      arith,
      length-to_be_bytes w (x / 256),
      length-append (to_be_bytes w (x / 256)) (x % 256 ∷ []),
    )

from_be-append : (acc b : ℕ) (bs : List ℕ) → from_be acc (bs ++ (b ∷ [])) ≡ from_be acc bs * 256 + b
unfolding from_be
from_be-append acc b [] = refl
from_be-append acc b (c ∷ bs) = from_be-append (acc * 256 + c) b bs

div_lt : (w x : ℕ) → x < 256 ^ suc w → x / 256 < 256 ^ w
div_lt w x h = omega arith

pub from_be-to_be_bytes : (w x : ℕ) → x < 256 ^ w → from_be 0 (to_be_bytes w x) ≡ x
unfolding to_be_bytes from_be
from_be-to_be_bytes zero x h = omega arith
from_be-to_be_bytes (suc w) x h =
    from_be-append 0 (x % 256) (to_be_bytes w (x / 256))
    ∙ omega (arith, from_be-to_be_bytes w (x / 256) (div_lt w x h))
