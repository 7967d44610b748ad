-- ===== src/Chess/Hash.antt =====
-- The position hash and the repetition count: src/chess/board.cpp. Words of 64 bits.
use Prim.Native.Nat.{bit_xor}
use plywise.Chess.Attack.{holds, piece}
use plywise.Chess.Board.{Board}
use plywise.Chess.Piece.{white, black, Piece, pawn, type_index, is_empty}
use plywise.Chess.Square.{no_square, file_of, rank_of}
use plywise.Prelude.Int.{pos, negsuc, ◌+ℤ◌}
use plywise.Prelude.{ℕ, ◌+◌, ◌*◌, ◌/◌, ◌%◌, ◌^◌, ◌||◌, List, [], ◌∷◌, ◌==◌, if◌then◌else◌}

abbrev pub word : ℕ
word = 2 ^ 64

abbrev mix_add : ℕ → ℕ
mix_add value = (value + 0x9e3779b97f4a7c15) % word

abbrev mix_fold : ℕ → ℕ → ℕ → ℕ
mix_fold value shift factor = bit_xor value (value / shift) * factor % word

unfoldable pub mix : ℕ → ℕ
mix value =
    let a = mix_add value in
    let b = mix_fold a (2 ^ 30) 0xbf58476d1ce4e5b9 in
    let c = mix_fold b (2 ^ 27) 0x94d049bb133111eb in bit_xor c (c / 2 ^ 31)

unfoldable pub piece_code : Piece → ℕ
piece_code p = type_index p.type + elim p.color [ white ↦ 0 | black ↦ 8 ]

-- The loop over the squares.
unfoldable pub hash_squares : List Piece → ℕ → ℕ → ℕ
hash_squares [] square result = result
hash_squares (p ∷ ps) square result =
    hash_squares ps (square + 1)
      (if is_empty p then result else bit_xor result (mix (piece_code p * 64 + square)))

-- The en passant file counts only if a pawn of the side to move stands beside the target.
unfoldable pub hash_en_passant : Board → ℕ → ℕ
hash_en_passant b result =
    let source_rank =
      rank_of b.en_passant +ℤ elim b.side_to_move [ white ↦ negsuc 0 | black ↦ pos 1 ] in
    let mine = piece b.side_to_move pawn in
    let capturable =
      holds b mine (file_of b.en_passant +ℤ negsuc 0) source_rank
      || holds b mine (file_of b.en_passant +ℤ pos 1) source_rank in
    if b.en_passant == no_square
    then result
    else if capturable
    then bit_xor result (mix (2048 + b.en_passant % 8))
    else result

unfoldable pub compute_hash : Board → ℕ
compute_hash b =
    let placed = hash_squares b.squares 0 0 in
    let rights = bit_xor placed (mix (1024 + b.castling_rights)) in
    let target = hash_en_passant b rights in
    elim b.side_to_move [ white ↦ target | black ↦ bit_xor target (mix 4096) ]

unfoldable pub count : ℕ → List ℕ → ℕ
count a [] = 0
count a (x ∷ xs) = (if x == a then 1 else 0) + count a xs

unfoldable pub repetition_count : Board → ℕ
unfolding count
repetition_count b = count b.hash b.repetition_history
