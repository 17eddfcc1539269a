-- ===== src/WebServer/Words.antt =====
-- The request parser against the list of the words of a text.
use mathlib.Core.List.{append_assoc, append-nil}
use network_ex.Common.{
  ℕ, ◌<◌, ◌≡◌, ◌≢◌, refl, ap, sym, ◌∙◌, Option, none, some, List, [], ◌∷◌, ◌++◌, true, false, All,
  ◌&&◌, length, get_or, ltb, arith, inl, inr, Bool-cases, if◌then◌else◌,
}
use network_ex.Common.Bytes.{Bytes}
use network_ex.WebServer.Parser.{
  UserRequest, cleared, is_delimiter, split, strtok, copy_field, parse_loop, protocol_parser,
  method_size, page_size, http_ver_size,
}

-- A word that has been begun is ended; no word is empty.
abbrev flush : Bytes → List Bytes → List Bytes
flush [] ws = ws
flush (c ∷ cs) ws = (c ∷ cs) ∷ ws

-- The words of a text, a byte at a time, with the word that has been begun.
words_from : Bytes → Bytes → List Bytes
words_from current [] = flush current []
words_from current (b ∷ bs) =
    let ended = flush current (words_from [] bs) in
    let longer = words_from (current ++ b ∷ []) bs in if is_delimiter b then ended else longer

-- The words of a text: its longest runs of bytes that are no delimiters.
pub words : Bytes → List Bytes
words = words_from []

-- The first three words, each in its field, if each leaves room for its NUL.
pub request_of : List Bytes → Option UserRequest
request_of ws =
    let method = get_or ws 0 [] in
    let page = get_or ws 1 [] in
    let http_ver = get_or ws 2 [] in
    if ltb (length method) method_size
      && (ltb (length page) page_size && ltb (length http_ver) http_ver_size)
    then some (record { method = method; page = page; http_ver = http_ver })
    else none

words_from-cons :
    (c : ℕ) (cs s : Bytes)
    → words_from (c ∷ cs) s ≡ (c ∷ cs ++ (split s).0) ∷ words_from [] (split s).1
unfolding words_from split
words_from-cons c cs [] = ap (λ w. (c ∷ w) ∷ []) (sym (append-nil cs))
words_from-cons c cs (b ∷ bs) = elim (Bool-cases (is_delimiter b)) [
  | inl ends ↦ rw ends (ap (λ w. (c ∷ w) ∷ words_from [] bs) (sym (append-nil cs)))
  | inr goes ↦ rw goes (
      words_from-cons c (cs ++ b ∷ []) bs
      ∙ ap (λ w. (c ∷ w) ∷ words_from [] (split bs).1) (append_assoc cs (b ∷ []) (split bs).0))
]

-- What a call of `strtok` gives, as words.
abbrev words_of : Option (Bytes × Bytes) → List Bytes
words_of none = []
words_of (some (token, rest)) = token ∷ words rest

split-within :
    (b : ℕ) (bs : Bytes)
    → is_delimiter b ≡ false
    → split (b ∷ bs) ≡ (b ∷ (split bs).0, (split bs).1)
unfolding split
split-within b bs h = rw h

words-strtok : (s : Bytes) → words s ≡ words_of (strtok s)
unfolding words words_from strtok split
words-strtok [] = refl
words-strtok (b ∷ bs) = elim (Bool-cases (is_delimiter b)) [
  | inl skipped ↦ rw skipped (words-strtok bs)
  | inr starts ↦
      rw starts
        (words_from-cons b [] bs ∙ ap (λ p. words_of (some p)) (sym (split-within b bs starts)))
]

-- Round 2 of the loop, with the method and the page stored.
loop_http_ver :
    (tr : Option (Bytes × Bytes)) (request : UserRequest) (m p : Bytes)
    → length m < method_size
    → length p < page_size
    → request ≡ record cleared { method = m; page = p }
    → parse_loop 1 2 tr request ≡ request_of (m ∷ p ∷ words_of tr)
unfolding parse_loop request_of copy_field
loop_http_ver none request m p fits_m fits_p e = ground arith
loop_http_ver (some (token, rest)) request m p fits_m fits_p e = ground arith

loop_page :
    (tr : Option (Bytes × Bytes)) (request : UserRequest) (m : Bytes)
    → length m < method_size
    → request ≡ record cleared { method = m }
    → parse_loop 2 1 tr request ≡ request_of (m ∷ words_of tr)
unfolding parse_loop request_of copy_field
loop_page none request m fits_m e = ground arith
loop_page (some (token, rest)) request m fits_m e = ground (
  arith,
  loop_http_ver (strtok rest) (record request { page = token }) m token,
  words-strtok rest,
)

loop_method : (tr : Option (Bytes × Bytes)) → parse_loop 3 0 tr cleared ≡ request_of (words_of tr)
unfolding parse_loop request_of copy_field
loop_method none = ground arith
loop_method (some (token, rest)) =
    ground
      (arith, loop_page (strtok rest) (record cleared { method = token }) token, words-strtok rest)

-- `protocol_parser` on a cleared structure stores the first three words of the text in the three
-- fields, with an empty string where there are fewer. It overflows a field exactly if one of these
-- words does not leave room for its NUL there.
pub protocol_parser-words : (str : Bytes) → protocol_parser str cleared ≡ request_of (words str)
unfolding protocol_parser
protocol_parser-words str = rw (words-strtok str) (loop_method (strtok str))

-- Bytes of which none is a delimiter.
abbrev pub NoDelimiter : Bytes → Type 0
NoDelimiter = All (λ b. is_delimiter b ≡ false)

words_from-append :
    (current w : Bytes) (d : ℕ) (s : Bytes)
    → NoDelimiter w
    → is_delimiter d ≡ true
    → words_from current (w ++ d ∷ s) ≡ flush (current ++ w) (words s)
unfolding words_from words
words_from-append current [] d s plain ends = rw (ends, append-nil)
words_from-append current (b ∷ w) d s plain ends = rw plain.0 (
    words_from-append (current ++ b ∷ []) w d s plain.1 ends
    ∙ ap (λ c. flush c (words s)) (append_assoc current (b ∷ []) w))

-- A word that is not empty, and the delimiter behind it.
words-append :
    (b : ℕ) (w : Bytes) (d : ℕ) (s : Bytes)
    → NoDelimiter (b ∷ w)
    → is_delimiter d ≡ true
    → words ((b ∷ w) ++ d ∷ s) ≡ (b ∷ w) ∷ words s
unfolding words
words-append b w d s plain ends = words_from-append [] (b ∷ w) d s plain ends

-- A request line, and what follows it.
abbrev pub request_line : Bytes → Bytes → Bytes → Bytes → Bytes
request_line method page http_ver rest =
    method ++ b' ' ∷ (page ++ b' ' ∷ (http_ver ++ 13 ∷ 10 ∷ rest))

pub words-request_line :
    (method page http_ver rest : Bytes)
    → NoDelimiter method
    → NoDelimiter page
    → NoDelimiter http_ver
    → method ≢ []
    → page ≢ []
    → http_ver ≢ []
    → words (request_line method page http_ver rest) ≡ method ∷ page ∷ http_ver ∷ words (10 ∷ rest)
unfolding is_delimiter
words-request_line [] p v rest pm pp pv m_ne p_ne v_ne = absurd (m_ne refl)
words-request_line (m ∷ ms) [] v rest pm pp pv m_ne p_ne v_ne = absurd (p_ne refl)
words-request_line (m ∷ ms) (p ∷ ps) [] rest pm pp pv m_ne p_ne v_ne = absurd (v_ne refl)
words-request_line (m ∷ ms) (p ∷ ps) (v ∷ vs) rest pm pp pv m_ne p_ne v_ne =
    words-append m ms b' ' _ pm refl
    ∙ ap (λ ws. (m ∷ ms) ∷ ws)
        (words-append p ps b' ' _ pp refl
          ∙ ap (λ ws. (p ∷ ps) ∷ ws) (words-append v vs 13 (10 ∷ rest) pv refl))

-- Reading back a request line: its three parts are not empty, have no delimiter in them, and leave
-- room for a NUL in the fields, and `protocol_parser` stores them, whatever follows the line.
pub protocol_parser-request_line :
    (method page http_ver rest : Bytes)
    → NoDelimiter method
    → NoDelimiter page
    → NoDelimiter http_ver
    → method ≢ []
    → page ≢ []
    → http_ver ≢ []
    → length method < method_size
    → length page < page_size
    → length http_ver < http_ver_size
    → protocol_parser (request_line method page http_ver rest) cleared
      ≡ some (record { method = method; page = page; http_ver = http_ver })
unfolding request_of
protocol_parser-request_line method page http_ver rest pm pp pv m_ne p_ne v_ne fits_m fits_p
      fits_v =
    protocol_parser-words (request_line method page http_ver rest)
    ∙ ap request_of (words-request_line method page http_ver rest pm pp pv m_ne p_ne v_ne)
    ∙ ground arith
