-- ===== src/WebServer/StatusLine.antt =====
-- The first line of every response: the format of the header has the date where the status belongs.
use mathlib.Core.Path.{subst}
use mathlib.Core.List.{append_assoc}
use network_ex.Common.{
  ℕ, ◌≤◌, ◌+◌, ◌*◌, ◌≡◌, ◌≢◌, refl, ap, sym, ◌∙◌, Option, none, some, [], ◌∷◌, ◌++◌, All,
  All-append, All-drop, All-concat, drop, arith, concat, ◌==◌, Option-cases, Bool-cases, inl, inr,
  if◌then◌else◌,
}
use network_ex.Common.Bytes.{Bytes, codes, c_string, bytes_eq}
use network_ex.Common.Int.{ℤ}
use network_ex.Common.Decimal.{decimal, two_digits, decimal-All}
use network_ex.WebServer.Parser.{UserRequest, is_delimiter}
use network_ex.WebServer.Words.{NoDelimiter, request_line}
use network_ex.WebServer.Page.{
  World, Tm, date_format, daytable, montable, entry, date_text, header_start, header_text, sendpage,
  content_length_of, body_blocks, Answer, answered, respond, webserv,
}
use network_ex.WebServer.Response.{sendpage-some, answered-some}
use network_ex.WebServer.Get.{IsRequest, webserv-request_line}

-- The bytes before the first newline.
pub first_line : Bytes → Bytes
first_line [] = []
first_line (b ∷ bs) = let line = b ∷ first_line bs in if b == 10 then [] else line

abbrev OneLine : Bytes → Type 0
OneLine = All (λ b. b ≢ 10)

OneLine-c_string : (a s : Bytes) → OneLine a → c_string a ≡ some s → OneLine s
unfolding c_string
OneLine-c_string [] s h e = ground arith
OneLine-c_string (b ∷ bs) [] h e = tt
OneLine-c_string (b ∷ bs) (c ∷ t) h e = ground (arith, OneLine-c_string bs t)

first_line-append : (s rest : Bytes) → OneLine s → first_line (s ++ 10 ∷ rest) ≡ s
unfolding first_line
first_line-append [] rest h = refl
first_line-append (b ∷ s) rest h = ground (arith, first_line-append s rest)

OneLine-NoDelimiter : (s : Bytes) → NoDelimiter s → OneLine s
unfolding is_delimiter
OneLine-NoDelimiter [] h = tt
OneLine-NoDelimiter (b ∷ s) h = (ground arith, OneLine-NoDelimiter s h.1)

OneLine-digits : (s : Bytes) → All (λ d. b'0' ≤ d) s → OneLine s
OneLine-digits [] h = tt
OneLine-digits (b ∷ s) h = (omega arith, OneLine-digits s h.1)

OneLine-decimal : (n : ℕ) → OneLine (decimal n)
OneLine-decimal n = OneLine-digits (decimal n) (decimal-All n)

OneLine-two_digits : (n : ℕ) → OneLine (two_digits n)
unfolding two_digits
OneLine-two_digits n = ground (arith, OneLine-decimal n)

OneLine-append : (s t : Bytes) → OneLine s → OneLine t → OneLine (s ++ t)
OneLine-append = All-append (λ b. b ≢ 10)

day_OneLine : OneLine daytable
day_OneLine = omega arith

month_OneLine : OneLine montable
month_OneLine = omega arith

OneLine-entry :
    (names : Bytes) (i : ℕ) (s : Bytes) → OneLine names → entry names i ≡ some s → OneLine s
unfolding entry
OneLine-entry names i s h e =
    OneLine-c_string (drop (i * 4) names) s (All-drop (λ b. b ≢ 10) (i * 4) names h) e

OneLine-date_format :
    (day month : Bytes) (tm : Tm)
    → OneLine day
    → OneLine month
    → OneLine (concat (date_format day month tm))
OneLine-date_format day month tm hd hm =
    All-concat (λ b. b ≢ 10) (date_format day month tm)
      (
        hd,
        (
          omega arith,
          (
            OneLine-decimal tm.tm_mday,
            (
              omega arith,
              (
                hm,
                (
                  omega arith,
                  (
                    OneLine-decimal (tm.tm_year + 1900),
                    (
                      omega arith,
                      (
                        OneLine-two_digits tm.tm_hour,
                        (
                          omega arith,
                          (
                            OneLine-two_digits tm.tm_min,
                            (omega arith, (OneLine-two_digits tm.tm_sec, (omega arith, tt))),
                          ),
                        ),
                      ),
                    ),
                  ),
                ),
              ),
            ),
          ),
        ),
      )

-- The date has no newline in it.
OneLine-date_text : (tm : Tm) (date_str : Bytes) → date_text tm ≡ some date_str → OneLine date_str
unfolding date_text
OneLine-date_text tm d h = elim (Option-cases (entry daytable tm.tm_wday)) [
  | inl past ↦ absurd (ground arith)
  | inr (day, e) ↦ elim (Option-cases (entry montable tm.tm_mon)) [
    | inl past ↦ absurd (ground arith)
    | inr (month, f) ↦
        let same : concat (date_format day month tm) ≡ d = ground arith in
        subst OneLine same (
          OneLine-date_format day month tm (OneLine-entry daytable tm.tm_wday day day_OneLine e)
            (OneLine-entry montable tm.tm_mon month month_OneLine f))
  ]
]

header_lines :
    (v d y e rest : Bytes)
    → ((v ++ 32 ∷ (d ++ 10 ∷ y)) ++ e) ++ rest ≡ (v ++ 32 ∷ d) ++ 10 ∷ ((y ++ e) ++ rest)
header_lines v d y e rest = simp append_assoc

first_line-header :
    (v d m : Bytes) (n : ℤ) (rest : Bytes)
    → OneLine v
    → OneLine d
    → first_line (header_text v d m n ++ rest) ≡ v ++ (codes " " ++ d)
unfolding header_text header_start
first_line-header v d m n rest hv hd =
    ap first_line (header_lines v d _ _ rest)
    ∙ first_line-append (v ++ 32 ∷ d) _ (OneLine-append v (32 ∷ d) hv (omega arith, hd))

answered-first_line :
    (w : World) (filename : Option Bytes) (http_ver codemsg : Bytes) (answer : Answer)
    → OneLine http_ver
    → answered (sendpage w filename http_ver codemsg) ≡ some answer
    → (date_str : Bytes) × (date_text w.now ≡ some date_str)
      × (first_line (concat answer.written) ≡ http_ver ++ (codes " " ++ date_str))
answered-first_line w filename v m answer hv h =
    let (sent, one) = answered-some (sendpage w filename v m) answer h in
    let (d, now, e) = sendpage-some w filename v m answer.written sent in
    (
      d,
      now,
      ap (λ blocks. first_line (concat blocks)) e
          ∙ first_line-header v d m (content_length_of w filename m)
              (concat (body_blocks w filename m)) hv (OneLine-date_text w.now d now),
    )

respond-first_line :
    (w : World) (request : UserRequest) (answer : Answer)
    → OneLine request.http_ver
    → respond w request ≡ some answer
    → (date_str : Bytes) × (date_text w.now ≡ some date_str)
      × (first_line (concat answer.written) ≡ request.http_ver ++ (codes " " ++ date_str))
unfolding respond
respond-first_line w request answer hv h =
    let page : Bytes = w.root ++ request.page in
    elim (Bool-cases (bytes_eq request.method (codes "GET"))) [
      | inr other ↦
          answered-first_line w none request.http_ver (codes "500 Internal Server Error") answer hv
            (ground arith)
      | inl get ↦ elim (Bool-cases (w.readable page)) [
        | inl can ↦
            answered-first_line w (some page) request.http_ver (codes "200 OK") answer hv
              (ground arith)
        | inr cannot ↦
            answered-first_line w none request.http_ver (codes "404 Not Found") answer hv
              (ground arith)
      ]
    ]

-- On every request that `webserv` answers, whatever the method and the page, the first line of the
-- response is the client's HTTP version and the date. So the status message is not in the status
-- line: a found page, a missing one and a refused method have the same first line.
pub webserv-first_line :
    (w : World) (method page http_ver rest : Bytes) (answer : Answer)
    → IsRequest method page http_ver rest
    → webserv w (some (request_line method page http_ver rest)) ≡ some answer
    → (date_str : Bytes) × (date_text w.now ≡ some date_str)
      × (first_line (concat answer.written) ≡ http_ver ++ (codes " " ++ date_str))
webserv-first_line w method page v rest answer r h =
    respond-first_line w (record { method = method; page = page; http_ver = v }) answer
      (OneLine-NoDelimiter v r.http_ver_plain)
      (sym (webserv-request_line w method page v rest r) ∙ h)
