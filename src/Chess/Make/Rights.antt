-- ===== src/Chess/Make/Rights.antt =====
-- Castling rights: a move never gives a right back, and a right goes when its king or rook leaves, or
-- its rook is taken.
use Prim.Native.Nat.{bit_and}
use plywise.Chess.Board.{Move}
use plywise.Chess.Make.{rights_after, rights_king, rights_corner}
use plywise.Chess.Piece.{Color, white, black, Piece, king, type_eq, color_eq}
use plywise.Prelude.{
  ℕ, ◌<◌, ◌≡◌, ◌⊎◌, inl, inr, refl, Bool, true, false, not, ◌&&◌, ◌||◌, arith, ◌==◌, all_below,
  all_below_sound, Bool-cases, ltb, ◌∙◌,
}

-- The right to this bit is there.
abbrev pub holds_right : ℕ → ℕ → Bool
holds_right rights bit = not (bit_and rights bit == 0)

abbrev same : Bool → Bool → Bool
same true b = b
same false b = not b

same-eq : (a b : Bool) → same a b ≡ true → a ≡ b
same-eq a b h = ground arith

-- For one bit, what a mask does to rights below 16.
abbrev masks_bit : ℕ → ℕ → ℕ → Bool
masks_bit mask bit rights =
    same (holds_right (bit_and rights mask) bit) (holds_right rights bit && holds_right mask bit)

abbrev masks : ℕ → ℕ → Bool
masks mask rights =
    ltb (bit_and rights mask) 16
    && masks_bit mask 1 rights
    && masks_bit mask 2 rights
    && masks_bit mask 4 rights
    && masks_bit mask 8 rights

abbrev IsRight : ℕ → Type 0
IsRight bit = (bit ≡ 1) ⊎ (bit ≡ 2) ⊎ (bit ≡ 4) ⊎ (bit ≡ 8)

masks-lt : (mask rights : ℕ) → masks mask rights ≡ true → bit_and rights mask < 16
masks-lt mask rights h = ground arith

-- The masks of `make_move`.
abbrev IsMask : ℕ → Type 0
IsMask mask =
    (mask ≡ 252) ⊎ (mask ≡ 243) ⊎ (mask ≡ 253) ⊎ (mask ≡ 254) ⊎ (mask ≡ 247) ⊎ (mask ≡ 251)

mask_tables : (mask : ℕ) → IsMask mask → all_below 16 (masks mask) ≡ true
unfolding all_below
mask_tables mask (inl e) = rw e refl
mask_tables mask (inr (inl e)) = rw e refl
mask_tables mask (inr (inr (inl e))) = rw e refl
mask_tables mask (inr (inr (inr (inl e)))) = rw e refl
mask_tables mask (inr (inr (inr (inr (inl e))))) = rw e refl
mask_tables mask (inr (inr (inr (inr (inr e))))) = rw e refl

-- A mask leaves a right if it was there and the mask has its bit.
masked :
    (mask bit rights : ℕ)
    → IsMask mask
    → IsRight bit
    → rights < 16
    → (bit_and rights mask < 16)
      × (holds_right (bit_and rights mask) bit ≡ (holds_right rights bit && holds_right mask bit))
masked mask bit rights k r h = (masks-lt mask rights (table rights h), by_bit r)
  where
    table : (x : ℕ) → x < 16 → masks mask x ≡ true
    table x = all_below_sound 16 (masks mask) x (mask_tables mask k)

    by_bit :
        IsRight bit
        → holds_right (bit_and rights mask) bit ≡ (holds_right rights bit && holds_right mask bit)
    by_bit (inl e) = rw e (same-eq _ _ (ground (arith, table rights h)))
    by_bit (inr (inl e)) = rw e (same-eq _ _ (ground (arith, table rights h)))
    by_bit (inr (inr (inl e))) = rw e (same-eq _ _ (ground (arith, table rights h)))
    by_bit (inr (inr (inr e))) = rw e (same-eq _ _ (ground (arith, table rights h)))

-- The bit of a castling right, by its colour and side, and the corner where its rook starts.
abbrev pub right_bit : Color → Bool → ℕ
right_bit white true = 1
right_bit white false = 2
right_bit black true = 4
right_bit black false = 8

abbrev pub right_corner : Color → Bool → ℕ
right_corner white true = 7
right_corner white false = 0
right_corner black true = 63
right_corner black false = 56

abbrev touches : Move → ℕ → Bool
touches m corner = m.from == corner || m.to == corner

rights_corner-right :
    (m : Move) (corner mask bit rights : ℕ)
    → IsMask mask
    → IsRight bit
    → rights < 16
    → (rights_corner m corner mask rights < 16)
      × (holds_right (rights_corner m corner mask rights) bit
          ≡ (holds_right rights bit && (not (touches m corner) || holds_right mask bit)))
unfolding rights_corner
rights_corner-right m corner mask bit rights k r h = elim (Bool-cases (touches m corner)) [
  | inl t ↦ rw t (masked mask bit rights k r h)
  | inr t ↦ rw t (h, ground arith)
]

king_mask : Color → ℕ
king_mask white = 252
king_mask black = 243

rights_king-right :
    (p : Piece) (bit rights : ℕ)
    → IsRight bit
    → rights < 16
    → (rights_king p rights < 16)
      × (holds_right (rights_king p rights) bit ≡ (
          holds_right rights bit
          && (not (type_eq p.type king) || holds_right (king_mask p.color) bit)))
unfolding rights_king king_mask
rights_king-right p bit rights r h = by_color p.color refl
  where
    by_color :
        (c : Color)
        → p.color ≡ c
        → (rights_king p rights < 16)
          × (holds_right (rights_king p rights) bit ≡ (
              holds_right rights bit
              && (not (type_eq p.type king) || holds_right (king_mask p.color) bit)))
    by_color white e = elim (Bool-cases (type_eq p.type king)) [
      | inl t ↦ rw (t, e) (masked 252 bit rights (inl refl) r h)
      | inr t ↦ rw t (h, ground arith)
    ]
    by_color black e = elim (Bool-cases (type_eq p.type king)) [
      | inl t ↦ rw (t, e) (masked 243 bit rights (inr (inl refl)) r h)
      | inr t ↦ rw t (h, ground arith)
    ]

-- All five statements of `make_move` together.
rights_after-masks :
    (m : Move) (p : Piece) (bit rights : ℕ)
    → IsRight bit
    → rights < 16
    → (rights_after m p rights < 16)
      × (holds_right (rights_after m p rights) bit ≡ (
          holds_right rights bit
          && (not (type_eq p.type king) || holds_right (king_mask p.color) bit)
          && (not (touches m 0) || holds_right 253 bit)
          && (not (touches m 7) || holds_right 254 bit)
          && (not (touches m 56) || holds_right 247 bit)
          && (not (touches m 63) || holds_right 251 bit)))
unfolding rights_after
rights_after-masks m p bit rights r h =
    let s1 = rights_king-right p bit rights r h in
    let s2 = rights_corner-right m 0 253 bit (rights_king p rights) (inr (inr (inl refl))) r s1.0 in
    let s3 = rights_corner-right m 7 254 bit _ (inr (inr (inr (inl refl)))) r s2.0 in
    let s4 = rights_corner-right m 56 247 bit _ (inr (inr (inr (inr (inl refl))))) r s3.0 in
    let s5 = rights_corner-right m 63 251 bit _ (inr (inr (inr (inr (inr refl))))) r s4.0 in
    (s5.0, s5.1 ∙ rw (s4.1, s3.1, s2.1, s1.1) refl)

or-true : (a : Bool) → (a || true) ≡ true
or-true true = refl
or-true false = refl

or-false : (a : Bool) → (a || false) ≡ a
or-false true = refl
or-false false = refl

and-true : (a : Bool) → (a && true) ≡ a
and-true true = refl
and-true false = refl

-- The mask of a king's move clears the rights of its colour only.
king_mask-right :
    (p : Piece) (color : Color) (king_side : Bool)
    → (not (type_eq p.type king) || holds_right (king_mask p.color) (right_bit color king_side))
      ≡ not (type_eq p.type king && color_eq p.color color)
unfolding king_mask color_eq
king_mask-right p color king_side = ground arith

-- Of the four rights, after a move one is there exactly if it was there before, its king has not moved and no piece
-- has left or reached its rook's corner; and the rights stay within four bits.
pub rights_after-right :
    (m : Move) (p : Piece) (color : Color) (king_side : Bool) (rights : ℕ)
    → rights < 16
    → (rights_after m p rights < 16)
      × (holds_right (rights_after m p rights) (right_bit color king_side) ≡ (
          holds_right rights (right_bit color king_side)
          && not (type_eq p.type king && color_eq p.color color)
          && not (m.from == right_corner color king_side || m.to == right_corner color king_side)))
rights_after-right m p white true rights h =
    let r = rights_after-masks m p 1 rights (inl refl) h in
    (r.0, r.1 ∙ rw (king_mask-right p white true) (simp (or-true, or-false, and-true)))
rights_after-right m p white false rights h =
    let r = rights_after-masks m p 2 rights (inr (inl refl)) h in
    (r.0, r.1 ∙ rw (king_mask-right p white false) (simp (or-true, or-false, and-true)))
rights_after-right m p black true rights h =
    let r = rights_after-masks m p 4 rights (inr (inr (inl refl))) h in
    (r.0, r.1 ∙ rw (king_mask-right p black true) (simp (or-true, or-false, and-true)))
rights_after-right m p black false rights h =
    let r = rights_after-masks m p 8 rights (inr (inr (inr refl))) h in
    (r.0, r.1 ∙ rw (king_mask-right p black false) (simp (or-true, or-false, and-true)))
