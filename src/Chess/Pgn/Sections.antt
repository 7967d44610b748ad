-- ===== src/Chess/Pgn/Sections.antt =====
-- What `strip_non_mainline` removes.
use plywise.Chess.Pgn.Scan.{Scan, mainline, scan, scan_step, strip_non_mainline}
use plywise.Chess.Pgn.Tokens.{IsMovetext, step-IsMovetext}
use plywise.Chess.Square.{Text}
use plywise.Errors.{Result, ok, err, ◌>>=◌}
use plywise.Prelude.{
  ℕ, suc, ◌≡◌, refl, sym, ap, ◌∙◌, true, false, List, [], ◌∷◌, ◌++◌, ◌==◌, arith, All,
}
use mathlib.Core.List.{append_assoc}

-- Text whose round brackets are balanced; any other sign may stand in it.
pub data IsBalanced : Text → Type 0 where
  done : IsBalanced []
  other :
      {c : ℕ} {rest : Text}
      → (c == b'(') ≡ false
      → (c == b')') ≡ false
      → IsBalanced rest
      → IsBalanced (c ∷ rest)
  nested :
      {inner rest : Text}
      → IsBalanced inner
      → IsBalanced rest
      → IsBalanced (b'(' ∷ (inner ++ b')' ∷ rest))

-- The sections of a text of moves.
pub data Section : Type 0 where
  moves : Text → Section
  brace_comment : Text → Section
  line_comment : Text → Section
  variation : Text → Section

abbrev pub IsSection : Section → Type 0
IsSection (moves text) = IsMovetext text
IsSection (brace_comment text) = All (λ c. (c == b'}') ≡ false) text
IsSection (line_comment text) = All (λ c. (c == 10) ≡ false) text
IsSection (variation text) = IsBalanced text

abbrev pub written : List Section → Text
written [] = []
written (moves text ∷ sections) = text ++ written sections
written (brace_comment text ∷ sections) = b'{' ∷ (text ++ b'}' ∷ written sections)
written (line_comment text ∷ sections) = b';' ∷ (text ++ 10 ∷ written sections)
written (variation text ∷ sections) = b'(' ∷ (text ++ b')' ∷ written sections)

-- The moves, with a space where the line of a comment ends.
abbrev pub kept : List Section → Text
kept [] = []
kept (moves text ∷ sections) = text ++ kept sections
kept (brace_comment text ∷ sections) = kept sections
kept (line_comment text ∷ sections) = 32 ∷ kept sections
kept (variation text ∷ sections) = kept sections

abbrev at_depth : ℕ → Scan
at_depth depth = record { variation_depth = depth; brace_comment = false; line_comment = false }

abbrev put : Text → Result Text → Result Text
put text rest = rest >>= (λ output. ok (text ++ output))

put_nothing : (rest : Result Text) → put [] rest ≡ rest
put_nothing (err code) = refl
put_nothing (ok output) = refl

-- A round that pushes nothing.
scan_silent :
    (s : Scan) {next : Scan} (c : ℕ) (rest : Text)
    → scan_step s c ≡ ok (next, [])
    → scan s (c ∷ rest) ≡ scan next rest
unfolding scan
scan_silent s {next = next} c rest e = rw e (put_nothing (scan next rest))

put_more :
    (c : ℕ) (text : Text) (rest : Result Text) → put (c ∷ []) (put text rest) ≡ put (c ∷ text) rest
put_more c text (err code) = refl
put_more c text (ok output) = refl

scan_moves :
    (text rest : Text)
    → IsMovetext text
    → scan mainline (text ++ rest) ≡ put text (scan mainline rest)
unfolding scan
scan_moves [] rest h = sym (put_nothing (scan mainline rest))
scan_moves (c ∷ cs) rest (h, t) =
    rw (step-IsMovetext c h, scan_moves cs rest t) (put_more c cs (scan mainline rest))

in_brace_step :
    (c : ℕ)
    → (c == b'}') ≡ false
    → scan_step (record mainline { brace_comment = true }) c
      ≡ ok (record mainline { brace_comment = true }, [])
unfolding scan_step
in_brace_step c h = rw h refl

in_line_step :
    (c : ℕ)
    → (c == 10) ≡ false
    → scan_step (record mainline { line_comment = true }) c
      ≡ ok (record mainline { line_comment = true }, [])
unfolding scan_step
in_line_step c h = rw h refl

in_variation_step :
    (depth c : ℕ)
    → (c == b'(') ≡ false
    → (c == b')') ≡ false
    → scan_step (at_depth (suc depth)) c ≡ ok (at_depth (suc depth), [])
unfolding scan_step
in_variation_step depth c h k = ground arith

opening_step : (depth : ℕ) → scan_step (at_depth depth) b'(' ≡ ok (at_depth (suc depth), [])
unfolding scan_step
opening_step depth = ground arith

closing_step : (depth : ℕ) → scan_step (at_depth (suc depth)) b')' ≡ ok (at_depth depth, [])
unfolding scan_step
closing_step depth = ground arith

scan_brace :
    (text rest : Text)
    → All (λ c. (c == b'}') ≡ false) text
    → scan (record mainline { brace_comment = true }) (text ++ b'}' ∷ rest) ≡ scan mainline rest
unfolding scan_step
scan_brace [] rest h = scan_silent _ b'}' rest refl
scan_brace (c ∷ cs) rest (h, t) =
    scan_silent _ c (cs ++ b'}' ∷ rest) (in_brace_step c h) ∙ scan_brace cs rest t

scan_line :
    (text rest : Text)
    → All (λ c. (c == 10) ≡ false) text
    → scan (record mainline { line_comment = true }) (text ++ 10 ∷ rest)
      ≡ put (32 ∷ []) (scan mainline rest)
unfolding scan scan_step
scan_line [] rest h = refl
scan_line (c ∷ cs) rest (h, t) =
    scan_silent (record mainline { line_comment = true }) c (cs ++ 10 ∷ rest) (in_line_step c h)
    ∙ scan_line cs rest t

scan_balanced :
    (depth : ℕ) {text : Text} (rest : Text)
    → IsBalanced text
    → scan (at_depth (suc depth)) (text ++ rest) ≡ scan (at_depth (suc depth)) rest
scan_balanced depth rest done = refl
scan_balanced depth rest (other {c} {rest = more} a b h) =
    scan_silent (at_depth (suc depth)) c (more ++ rest) (in_variation_step depth c a b)
    ∙ scan_balanced depth rest h
scan_balanced depth rest (nested {inner} {rest = more} h k) =
    scan_silent (at_depth (suc depth)) b'(' ((inner ++ b')' ∷ more) ++ rest)
      (opening_step (suc depth))
    ∙ (ap (scan (at_depth (suc (suc depth)))) (append_assoc inner (b')' ∷ more) rest)
        ∙ (scan_balanced (suc depth) (b')' ∷ more ++ rest) h
            ∙ (scan_silent (at_depth (suc (suc depth))) b')' (more ++ rest)
                  (closing_step (suc depth))
                ∙ scan_balanced depth rest k)))

scan_variation :
    {text : Text} (rest : Text)
    → IsBalanced text
    → scan mainline (b'(' ∷ (text ++ b')' ∷ rest)) ≡ scan mainline rest
scan_variation {text} rest h =
    scan_silent mainline b'(' (text ++ b')' ∷ rest) (opening_step 0)
    ∙ (scan_balanced 0 (b')' ∷ rest) h ∙ scan_silent (at_depth 1) b')' rest (closing_step 0))

scan-written :
    (sections : List Section)
    → All IsSection sections
    → scan mainline (written sections) ≡ ok (kept sections)
unfolding scan scan_step
scan-written [] h = refl
scan-written (moves text ∷ sections) (h, t) =
    scan_moves text (written sections) h ∙ ap (put text) (scan-written sections t)
scan-written (brace_comment text ∷ sections) (h, t) =
    scan_silent mainline b'{' (text ++ b'}' ∷ written sections) refl
    ∙ (scan_brace text (written sections) h ∙ scan-written sections t)
scan-written (line_comment text ∷ sections) (h, t) =
    scan_silent mainline b';' (text ++ 10 ∷ written sections) refl
    ∙ (scan_line text (written sections) h ∙ ap (put (32 ∷ [])) (scan-written sections t))
scan-written (variation text ∷ sections) (h, t) =
    scan_variation (written sections) h ∙ scan-written sections t

-- Of a text made of moves, brace comments, comments to the end of the line and variations whose brackets
-- are balanced, `strip_non_mainline` keeps the moves, with a space where a line of comment ends, and throws
-- nothing.
pub strip_non_mainline-written :
    (sections : List Section)
    → All IsSection sections
    → strip_non_mainline (written sections) ≡ ok (kept sections)
unfolding strip_non_mainline
strip_non_mainline-written sections h = scan-written sections h
