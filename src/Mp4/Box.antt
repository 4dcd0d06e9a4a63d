-- ===== src/Mp4/Box.antt =====
-- libmp4/box.go: boxes, and the big-endian integers of their bodies. A four-character code is its
-- four bytes.
use ggmpeg.Prelude.{ℕ, ◌+◌, ◌/◌, ◌%◌, ◌^◌, List, [], ◌∷◌, ◌++◌, length, Bytes, put_be32}

pub record Box : Type 0 where
  pub type : Bytes
  pub body : Bytes

abbrev pub put_be64 : ℕ → Bytes
put_be64 x = put_be32 (x / 2 ^ 32) ++ put_be32 x

-- Box.Bytes
unfoldable pub box_bytes : Box → Bytes
box_bytes b = put_be32 (8 + length b.body) ++ (b.type ++ b.body)

abbrev pub four_cc : ℕ → ℕ → ℕ → ℕ → Bytes
four_cc a b c d = a ∷ b ∷ c ∷ d ∷ []

abbrev pub full_box_header : ℕ → ℕ → Bytes
full_box_header version flags =
    (version % 256) ∷ (flags / 2 ^ 16 % 256) ∷ (flags / 2 ^ 8 % 256) ∷ (flags % 256) ∷ []

unfoldable pub concat_bytes : List Bytes → Bytes
concat_bytes [] = []
concat_bytes (c ∷ cs) = c ++ concat_bytes cs

unfoldable pub container : Bytes → List Bytes → Bytes
container type children = box_bytes (record { type = type; body = concat_bytes children })
