-- ===== src/Codec/Varints.antt =====
-- What follows from the behaviour of varints alone.
use alpamayo.Prelude.{ℕ, ◌^◌, ◌<◌, ◌≡◌, refl, sym, ◌∙◌, some, List, [], ◌∷◌, ◌++◌, arith}
use alpamayo.Codec.Reader.{Varint, append_nil}

module _ (v : Varint) where
  pub decode_last : (n : ℕ) → n < 2 ^ 64 → v.decode_varint (v.encode_varint n) ≡ some (n, [])
  decode_last n h = rw (append_nil (v.encode_varint n)) at (v.decode-encode n [] h)

  zero_read : v.decode_varint (0 ∷ []) ≡ some (0, [])
  zero_read = rw (v.encode_small 0 (omega arith)) at (decode_last 0 (omega arith))

  -- No varint is empty.
  pub varint_some : (n : ℕ) → n < 2 ^ 64 → ¬ (v.encode_varint n ≡ [])
  varint_some n h e =
      let wrong : some (n, 0 ∷ []) ≡ some (0, []) =
        sym (rw e at (v.decode-encode n (0 ∷ []) h)) ∙ zero_read in
      ground (arith, wrong)

  pub varint_append_some : (n : ℕ) (rest : List ℕ) → n < 2 ^ 64 → ¬ (v.encode_varint n ++ rest ≡ [])
  varint_append_some n rest h e = varint_some n h (first_empty (v.encode_varint n) rest e)
    where
      first_empty : (xs ys : List ℕ) → xs ++ ys ≡ [] → xs ≡ []
      first_empty [] ys e = refl
      first_empty (x ∷ xs) ys e = absurd (ground (arith, e))
