-- ===== src/Stdio/Echoed.antt =====
-- When the line server is defined.
use network_ex.Common.{
  ℕ, suc, ◌+◌, ◌<◌, ◌≡◌, ◌≢◌, refl, ap, ◌∙◌, Option, none, some, [], ◌∷◌, ◌++◌, Bool, true, false,
  All, length, lt→ltb, arith,
}
use network_ex.Common.Bytes.{Bytes, NulFree, c_string, c_string-append}
use network_ex.Common.Fgets.{take_line, take_line-line, take_line-short}
use network_ex.Stdio.Lines.{
  line_max, opened, took, put, closed, undefined, Talk, ends, on_text, has_newline, meets_end,
  echo_lines,
}

-- Text without a newline and NUL that `fgets` takes whole.
pub record IsShort (s : Bytes) : Type 0 where
  pub one_line : All (λ b. b ≢ 10) s
  pub no_nul : NulFree s
  pub room : length s < line_max

has_newline-append : (s : Bytes) → has_newline (s ++ 10 ∷ []) ≡ true
has_newline-append [] = refl
has_newline-append (b ∷ s) = ground (arith, has_newline-append s)

has_newline-none : (s : Bytes) → All (λ b. b ≢ 10) s → has_newline s ≡ false
has_newline-none [] h = refl
has_newline-none (b ∷ s) h = ground (arith, has_newline-none s h.1)

meets_end-line : (s : Bytes) → meets_end (s ++ 10 ∷ []) ≡ false
meets_end-line s = rw (has_newline-append s) refl

meets_end-short : (s : Bytes) → IsShort s → meets_end s ≡ true
meets_end-short s h = rw (has_newline-none s h.one_line) (lt→ltb _ _ h.room)

-- A round on a stream that has just been opened.
abbrev one_round : (ℕ → Bool) → ℕ → ℕ → Bytes × Bytes → Talk
one_round puts rounds k p =
    on_text (took (meets_end p.0)) (puts k) (c_string (p.0 ++ 0 ∷ []))
      (echo_lines puts rounds (k + 1) put p.1)

echo_lines-line :
    (puts : ℕ → Bool) (rounds k : ℕ) (s rest : Bytes)
    → echo_lines puts (suc rounds) k opened (s ++ 10 ∷ rest)
      ≡ one_round puts rounds k (take_line line_max (s ++ 10 ∷ rest))
unfolding echo_lines
echo_lines-line puts rounds k [] rest = refl
echo_lines-line puts rounds k (b ∷ s) rest = refl

-- A line that does not meet the end cannot be written back.
on_text-took :
    (met_end works : Bool) (text : Option Bytes) (more : Talk)
    → met_end ≡ false
    → on_text (took met_end) works text more ≡ ends undefined
on_text-took false works none more h = refl
on_text-took false works (some text) more h = refl
on_text-took true works text more h = absurd (ground arith)

line_undefined :
    (puts : ℕ → Bool) (rounds k : ℕ) (s rest : Bytes)
    → IsShort s
    → echo_lines puts (suc rounds) k opened (s ++ 10 ∷ rest) ≡ ends undefined
line_undefined puts rounds k s rest h =
    let line = s ++ 10 ∷ [] in
    echo_lines-line puts rounds k s rest
    ∙ ap (one_round puts rounds k) (take_line-line line_max s rest h.one_line h.room)
    ∙ on_text-took (meets_end line) (puts k) (c_string (line ++ 0 ∷ []))
        (echo_lines puts rounds (k + 1) put rest) (meets_end-line s)

-- What a client gets for text without a newline, with the outcome of `fputs`: once the text is
-- written, the next `fgets` is undefined.
abbrev pub of_short : Bool → Bytes → Talk
of_short works [] = ends closed
of_short true (b ∷ s) = record { echoed = (b ∷ s) ∷ []; ending = undefined }
of_short false (b ∷ s) = ends closed

put_undefined :
    (puts : ℕ → Bool) (rounds k : ℕ) (s : Bytes)
    → echo_lines puts (suc rounds) k put s ≡ ends undefined
unfolding echo_lines
put_undefined puts rounds k [] = refl
put_undefined puts rounds k (b ∷ s) = refl

on_text-ended :
    (met_end works : Bool) (b : ℕ) (s : Bytes) (text : Option Bytes) (more : Talk)
    → met_end ≡ true
    → text ≡ some (b ∷ s)
    → more ≡ ends undefined
    → on_text (took met_end) works text more ≡ of_short works (b ∷ s)
on_text-ended false works b s text more h t m = absurd (ground arith)
on_text-ended true true b s text more h t m = ground (arith, t, m)
on_text-ended true false b s text more h t m = ground (arith, t)

short_echoed :
    (puts : ℕ → Bool) (rounds k : ℕ) (s : Bytes)
    → IsShort s
    → echo_lines puts (suc (suc rounds)) k opened s ≡ of_short (puts k) s
unfolding echo_lines
short_echoed puts rounds k [] h = refl
short_echoed puts rounds k (b ∷ s) h =
    ap (one_round puts (suc rounds) k) (take_line-short line_max (b ∷ s) h.one_line h.room)
    ∙ on_text-ended (meets_end (b ∷ s)) (puts k) b s (c_string ((b ∷ s) ++ 0 ∷ []))
        (echo_lines puts (suc rounds) (k + 1) put []) (meets_end-short (b ∷ s) h)
        (c_string-append (b ∷ s) [] h.no_nul) (put_undefined puts rounds (k + 1) [])

-- Text without a newline and NUL, of less than 254 bytes, on a stream that has just been opened.
-- If a newline follows it, whatever is behind, the server is undefined before it has written anything:
-- `fputs` comes right after a read that has not met the end. If the stream ends with it, the server
-- closes the connection where there is no text or where `fputs` fails, and otherwise writes the text
-- back and is then undefined, since `fgets` comes right after it.
pub echo_lines_lem :
    (puts : ℕ → Bool) (rounds k : ℕ) (s rest : Bytes)
    → IsShort s
    → (echo_lines puts (suc rounds) k opened (s ++ 10 ∷ rest) ≡ ends undefined)
      × (echo_lines puts (suc (suc rounds)) k opened s ≡ of_short (puts k) s)
echo_lines_lem puts rounds k s rest h =
    (line_undefined puts rounds k s rest h, short_echoed puts rounds k s h)
