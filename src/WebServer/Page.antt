-- ===== src/WebServer/Page.antt =====
-- `webserv` and `sendpage`: the answer to one request.
use network_ex.Common.{
  ℕ, zero, suc, ◌+◌, ◌*◌, Option, none, some, List, [], ◌∷◌, ◌++◌, Bool, length, take, drop, concat,
  ltb, if◌then◌else◌, String,
}
use network_ex.Common.Bytes.{Bytes, codes, c_string, filled, bytes_eq}
use network_ex.Common.Int.{ℤ, pos, negsuc}
use network_ex.Common.Decimal.{decimal, decimal_ℤ, two_digits, to_int}
use network_ex.WebServer.Parser.{UserRequest, cleared, protocol_parser}

-- MAXLINE and HEADERSIZE
abbrev pub max_line : ℕ
max_line = 1024

-- The fields of `struct tm` that `sendpage` prints.
pub record Tm : Type 0 where
  pub tm_wday : ℕ
  pub tm_mday : ℕ
  pub tm_mon : ℕ
  pub tm_year : ℕ
  pub tm_hour : ℕ
  pub tm_min : ℕ
  pub tm_sec : ℕ

-- What the server takes from outside: the root directory, `access` with R_OK, the `st_size` that
-- `stat` reports, the content that `open` and `read` give, and the local time.
pub record World : Type 0 where
  pub root : Bytes
  pub readable : Bytes → Bool
  pub st_size : Bytes → ℕ
  pub content : Bytes → Option Bytes
  pub now : Tm

-- The names in the table, each with its NUL.
abbrev pub table : List String → Bytes
table [] = []
table (name ∷ names) = codes name ++ 0 ∷ table names

abbrev pub daytable : Bytes
daytable = table ("Sun" ∷ "Mon" ∷ "Tue" ∷ "Wed" ∷ "Thu" ∷ "Fri" ∷ "Sat" ∷ [])

abbrev pub montable : Bytes
montable = table (
    "Jan" ∷ "Feb" ∷ "Mar" ∷ "Apr" ∷ "May" ∷ "Jun" ∷ "Jul" ∷ "Aug" ∷ "Sep" ∷ "Oct" ∷ "Nov" ∷ "Dec"
    ∷ [])

-- The C string at `table + i * 4`; `none` where that is past the table.
unfoldable pub entry : Bytes → ℕ → Option Bytes
unfolding c_string
entry names i = c_string (drop (i * 4) names)

-- "%s, %d %s %d %02d:%02d:%02d GMT"
abbrev pub date_format : Bytes → Bytes → Tm → List Bytes
date_format day month tm =
    day
    ∷ codes ", "
    ∷ decimal tm.tm_mday
    ∷ codes " "
    ∷ month
    ∷ codes " "
    ∷ decimal (tm.tm_year + 1900)
    ∷ codes " "
    ∷ two_digits tm.tm_hour
    ∷ codes ":"
    ∷ two_digits tm.tm_min
    ∷ codes ":"
    ∷ two_digits tm.tm_sec
    ∷ codes " GMT"
    ∷ []

-- `date_str`
unfoldable pub date_text : Tm → Option Bytes
unfolding entry
date_text tm = elim (entry daytable tm.tm_wday) [
  | none ↦ none
  | some day ↦ elim (entry montable tm.tm_mon) [
    | none ↦ none
    | some month ↦ some (concat (date_format day month tm))
  ]
]

abbrev pub newline : Bytes
newline = 10 ∷ []

-- SERVER
abbrev pub server_name : Bytes
server_name = codes "myserver/1.0 (Linux)"

-- What the format of the header puts before the length, from the arguments in their order.
unfoldable pub header_start : Bytes → Bytes → Bytes → Bytes
header_start http_ver date_str codemsg =
    http_ver
    ++ (codes " "
        ++ (date_str
            ++ (newline
                ++ (codes "Date: "
                    ++ (codemsg
                        ++ (newline
                            ++ (codes "Server: "
                                ++ (server_name ++ (newline ++ codes "Content-Length: ")))))))))

unfoldable pub header_end : Bytes
header_end =
    newline
    ++ (codes "Connection: close"
        ++ (newline ++ (codes "Content-Type: text/html; charset=UTF8" ++ (newline ++ newline))))

unfoldable pub header_text : Bytes → Bytes → Bytes → ℤ → Bytes
header_text http_ver date_str codemsg content_length =
    header_start http_ver date_str codemsg ++ (decimal_ℤ content_length ++ header_end)

-- The blocks that `read` with MAXLINE gives of a file, each written to the socket. Every round but
-- the last takes a byte, so the length of the file and one is fuel enough.
unfoldable pub page_blocks : ℕ → Bytes → List Bytes
page_blocks zero rest = []
page_blocks (suc fuel) [] = []
page_blocks (suc fuel) (b ∷ rest) =
    take max_line (b ∷ rest) ∷ page_blocks fuel (drop max_line (b ∷ rest))

-- The body: the file's blocks, none if `open` fails, or the message where there is no file.
unfoldable pub body_blocks : World → Option Bytes → Bytes → List Bytes
unfolding page_blocks
body_blocks w none codemsg = codemsg ∷ []
body_blocks w (some filename) codemsg = elim (w.content filename) [
  | none ↦ []
  | some bytes ↦ page_blocks (length bytes + 1) bytes
]

abbrev pub content_length_of : World → Option Bytes → Bytes → ℤ
content_length_of w none codemsg = to_int (length codemsg)
content_length_of w (some filename) codemsg = to_int (w.st_size filename)

-- `sendpage`: what it hands to `write`, in order. `none` where the header with its NUL does not fit
-- its array, or the date is past its tables.
unfoldable pub sendpage : World → Option Bytes → Bytes → Bytes → Option (List Bytes)
sendpage w filename http_ver codemsg = elim (date_text w.now) [
  | none ↦ none
  | some date_str ↦
      let header = header_text http_ver date_str codemsg (content_length_of w filename codemsg) in
      if ltb (length header) max_line then some (header ∷ body_blocks w filename codemsg) else none
]

-- What `webserv` returns and what it writes.
pub record Answer : Type 0 where
  pub ret : ℤ
  pub written : List Bytes

abbrev pub answered : Option (List Bytes) → Option Answer
answered none = none
answered (some blocks) = some (record { ret = pos 1; written = blocks })

-- `webserv` after the request is parsed; the path has to fit its array.
unfoldable pub respond : World → UserRequest → Option Answer
respond w request =
    let page = w.root ++ request.page in
    if bytes_eq request.method (codes "GET")
    then if ltb (length page) max_line
      then if w.readable page
        then answered (sendpage w (some page) request.http_ver (codes "200 OK"))
        else answered (sendpage w none request.http_ver (codes "404 Not Found"))
      else none
    else answered (sendpage w none request.http_ver (codes "500 Internal Server Error"))

-- `webserv`: `none` where a C string or a copy runs over its array.
unfoldable pub webserv : World → Option Bytes → Option Answer
webserv w none = some (record { ret = negsuc 0; written = [] })
webserv w (some []) = some (record { ret = negsuc 0; written = [] })
webserv w (some (b ∷ bs)) = elim (c_string (filled max_line (b ∷ bs))) [
  | none ↦ none
  | some str ↦ elim (protocol_parser str cleared) [ none ↦ none | some request ↦ respond w request ]
]
