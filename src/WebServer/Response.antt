-- ===== src/WebServer/Response.antt =====
-- What a client reads back from `webserv`.
use mathlib.Core.List.{append_assoc, append-nil}
use network_ex.Common.{
  ℕ, zero, suc, ◌+◌, ◌<◌, ◌^◌, ◌≡◌, refl, ap, sym, ◌∙◌, true, Option, none, some, List, [], ◌∷◌,
  ◌++◌, length, drop, concat, arith, ◌⊎◌, inl, inr, Bool-cases, Option-cases, take-append-drop,
  length-drop,
}
use network_ex.Common.Bytes.{Bytes, codes, c_string, filled, bytes_eq}
use network_ex.Common.Int.{pos, negsuc}
use network_ex.Common.Decimal.{decimal, decimal_ℤ, to_int, to_int-pos, value, value-decimal}
use network_ex.WebServer.Parser.{UserRequest, cleared, protocol_parser}
use network_ex.WebServer.Page.{
  World, max_line, date_text, header_start, header_end, header_text, page_blocks, body_blocks,
  content_length_of, sendpage, Answer, answered, respond, webserv,
}

pub page_blocks-concat :
    (fuel : ℕ) (rest : Bytes) → length rest < fuel → concat (page_blocks fuel rest) ≡ rest
unfolding page_blocks
page_blocks-concat zero rest h = absurd (omega arith)
page_blocks-concat (suc fuel) [] h = refl
page_blocks-concat (suc fuel) (b ∷ rest) h = ground (
  arith,
  length-drop max_line (b ∷ rest),
  page_blocks-concat fuel (drop max_line (b ∷ rest)),
  take-append-drop max_line (b ∷ rest),
)

-- A file that opens, whose `st_size` is the number of the bytes that are read of it, below 2 ^ 31. A
-- directory that `access` allows is none: `read` fails on it, whatever its `st_size` is.
pub record IsFile (w : World) (page : Bytes) : Type 0 where
  pub bytes : Bytes
  pub opens : w.content page ≡ some bytes
  pub sized : w.st_size page ≡ length bytes
  pub small : length bytes < 2 ^ 31

-- The path of the request, where `access` allows it.
abbrev pub IsServed : World → UserRequest → Type 0
IsServed w request =
    bytes_eq request.method (codes "GET") ≡ true
    → w.readable (w.root ++ request.page) ≡ true
    → IsFile w (w.root ++ request.page)

-- What is said of the request that the input holds, where it holds one.
abbrev pub IsFileAsked : World → Option Bytes → Type 0
IsFileAsked w input =
    (block str : Bytes) (request : UserRequest)
    → input ≡ some block
    → c_string (filled max_line block) ≡ some str
    → protocol_parser str cleared ≡ some request
    → IsServed w request

-- A response whose length field, in decimal digits, is the number of the bytes behind the header.
abbrev pub IsFramed : List Bytes → Type 0
IsFramed written =
    (http_ver : Bytes) × (date_str : Bytes) × (codemsg : Bytes) × (digits : Bytes) × (body : Bytes)
    × (concat written ≡ header_start http_ver date_str codemsg ++ (digits ++ (header_end ++ body)))
    × (value digits ≡ length body)

-- What `sendpage` writes, when it writes.
pub sendpage-some :
    (w : World) (filename : Option Bytes) (http_ver codemsg : Bytes) (written : List Bytes)
    → sendpage w filename http_ver codemsg ≡ some written
    → (date_str : Bytes) × (date_text w.now ≡ some date_str)
      × (written
          ≡ header_text http_ver date_str codemsg (content_length_of w filename codemsg)
            ∷ body_blocks w filename codemsg)
unfolding sendpage
sendpage-some w filename v m written h = elim (Option-cases (date_text w.now)) [
  | inl none_ ↦ ground arith
  | inr (d, e) ↦ (d, e, ground arith)
]

header-append :
    (v d m digits rest body : Bytes)
    → (header_start v d m ++ (digits ++ rest)) ++ body
      ≡ header_start v d m ++ (digits ++ (rest ++ body))
header-append v d m digits rest body = simp append_assoc

sendpage-IsFramed :
    (w : World) (filename : Option Bytes) (http_ver codemsg : Bytes) (written : List Bytes)
    → content_length_of w filename codemsg ≡ pos (length (concat (body_blocks w filename codemsg)))
    → sendpage w filename http_ver codemsg ≡ some written
    → IsFramed written
unfolding header_text decimal_ℤ
sendpage-IsFramed w filename v m written sized h =
    let (d, now, e) = sendpage-some w filename v m written h in
    let body : Bytes = concat (body_blocks w filename m) in
    let whole : concat
          (header_text v d m (content_length_of w filename m) ∷ body_blocks w filename m)
        ≡ header_start v d m ++ (decimal (length body) ++ (header_end ++ body)) =
      rw sized (header-append v d m (decimal (length body)) header_end body) in
    (v, d, m, decimal (length body), body, ap concat e ∙ whole, value-decimal (length body))

-- The body where there is no file is the message.
message-sized :
    (w : World) (codemsg : Bytes)
    → length codemsg < 2 ^ 31
    → content_length_of w none codemsg ≡ pos (length (concat (body_blocks w none codemsg)))
unfolding body_blocks
message-sized w m h = to_int-pos (length m) h ∙ ap (λ b. pos (length b)) (sym (append-nil m))

page-body :
    (w : World) (page bytes codemsg : Bytes)
    → w.content page ≡ some bytes
    → concat (body_blocks w (some page) codemsg) ≡ bytes
unfolding body_blocks
page-body w page bytes m e =
    ground (arith, page_blocks-concat (length bytes + 1) bytes (omega arith))

-- The body of a page is the file.
page-sized :
    (w : World) (page codemsg : Bytes)
    → IsFile w page
    → content_length_of w (some page) codemsg
      ≡ pos (length (concat (body_blocks w (some page) codemsg)))
page-sized w page m file =
    ap to_int file.sized
    ∙ to_int-pos (length file.bytes) file.small
    ∙ ap (λ b. pos (length b)) (sym (page-body w page file.bytes m file.opens))

pub answered-some :
    (o : Option (List Bytes)) (answer : Answer)
    → answered o ≡ some answer
    → (o ≡ some answer.written) × (answer.ret ≡ pos 1)
answered-some none answer h = absurd (ground arith)
answered-some (some blocks) answer h = ground arith

answered-IsFramed :
    (w : World) (filename : Option Bytes) (http_ver codemsg : Bytes) (answer : Answer)
    → content_length_of w filename codemsg ≡ pos (length (concat (body_blocks w filename codemsg)))
    → answered (sendpage w filename http_ver codemsg) ≡ some answer
    → (answer.ret ≡ pos 1) × IsFramed answer.written
answered-IsFramed w filename v m answer sized h =
    let (sent, one) = answered-some (sendpage w filename v m) answer h in
    (one, sendpage-IsFramed w filename v m answer.written sized sent)

-- Every answer of `respond`, a page or an error, gives the length of its body.
respond-IsFramed :
    (w : World) (request : UserRequest) (answer : Answer)
    → IsServed w request
    → respond w request ≡ some answer
    → (answer.ret ≡ pos 1) × IsFramed answer.written
unfolding respond
respond-IsFramed w request answer served h =
    let page : Bytes = w.root ++ request.page in
    elim (Bool-cases (bytes_eq request.method (codes "GET"))) [
      | inr other ↦
          answered-IsFramed w none request.http_ver (codes "500 Internal Server Error") answer
            (message-sized w (codes "500 Internal Server Error") (omega arith)) (ground arith)
      | inl get ↦ elim (Bool-cases (w.readable page)) [
        | inl can ↦
            answered-IsFramed w (some page) request.http_ver (codes "200 OK") answer
              (page-sized w page (codes "200 OK") (served get can)) (ground arith)
        | inr cannot ↦
            answered-IsFramed w none request.http_ver (codes "404 Not Found") answer
              (message-sized w (codes "404 Not Found") (omega arith)) (ground arith)
      ]
    ]

-- Where the path that a GET request names and `access` allows is a file that opens, whose `st_size` is
-- the number of the bytes that are read of it, below 2 ^ 31: whatever the client sends, if `webserv`
-- returns without an overflow, then either it returned -1 and wrote nothing, or it returned 1 and wrote
-- one response, a page or an error, whose Content-Length is the number of the bytes of its body.
pub webserv-IsFramed :
    (w : World) (input : Option Bytes) (answer : Answer)
    → IsFileAsked w input
    → webserv w input ≡ some answer
    → ((answer.ret ≡ negsuc 0) × (answer.written ≡ []))
      ⊎ ((answer.ret ≡ pos 1) × IsFramed answer.written)
unfolding webserv
webserv-IsFramed w none answer asked h = inl (ground arith)
webserv-IsFramed w (some []) answer asked h = inl (ground arith)
webserv-IsFramed w (some (b ∷ bs)) answer asked h =
    elim (Option-cases (c_string (filled max_line (b ∷ bs)))) [
      | inl overrun ↦ absurd (ground arith)
      | inr (str, e) ↦ elim (Option-cases (protocol_parser str cleared)) [
        | inl overflow ↦ absurd (ground arith)
        | inr (request, p) ↦
            inr (
              respond-IsFramed w request answer (asked (b ∷ bs) str request refl e p)
                (ground arith))
      ]
    ]
