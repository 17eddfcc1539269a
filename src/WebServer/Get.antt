-- ===== src/WebServer/Get.antt =====
-- A GET request, from the bytes on the socket to the bytes on the socket.
use network_ex.Common.{
  ℕ, ◌+◌, ◌<◌, ◌^◌, ◌≡◌, ◌≢◌, refl, ◌∙◌, true, some, List, [], ◌∷◌, ◌++◌, length, concat, arith,
}
use network_ex.Common.Bytes.{Bytes, NulFree, codes, c_string-filled}
use network_ex.Common.Int.{pos}
use network_ex.Common.Decimal.{to_int-pos}
use network_ex.WebServer.Parser.{
  UserRequest, cleared, protocol_parser, page_size, http_ver_size, method_size,
}
use network_ex.WebServer.Words.{NoDelimiter, request_line, protocol_parser-request_line}
use network_ex.WebServer.Page.{
  World, max_line, date_text, header_text, page_blocks, body_blocks, sendpage, respond, webserv,
}
use network_ex.WebServer.Response.{page_blocks-concat}

-- `webserv` on text that leaves room for a NUL in its buffer and parses.
webserv-respond :
    (w : World) (b : ℕ) (bs : Bytes) (request : UserRequest)
    → NulFree (b ∷ bs)
    → length (b ∷ bs) < max_line
    → protocol_parser (b ∷ bs) cleared ≡ some request
    → webserv w (some (b ∷ bs)) ≡ respond w request
unfolding webserv
webserv-respond w b bs request no_nul room parsed =
    ground (arith, c_string-filled max_line (b ∷ bs) no_nul room)

-- What a client asks for: a request that `webserv` reads whole and whose parts fit their fields.
pub record IsRequest (method page http_ver rest : Bytes) : Type 0 where
  pub no_nul : NulFree (request_line method page http_ver rest)
  pub room : length (request_line method page http_ver rest) < max_line
  pub method_plain : NoDelimiter method
  pub page_plain : NoDelimiter page
  pub http_ver_plain : NoDelimiter http_ver
  pub method_some : method ≢ []
  pub page_some : page ≢ []
  pub http_ver_some : http_ver ≢ []
  pub method_fits : length method < method_size
  pub page_fits : length page < page_size
  pub http_ver_fits : length http_ver < http_ver_size

-- `webserv` answers such a request as `respond` does its three parts.
pub webserv-request_line :
    (w : World) (method page http_ver rest : Bytes)
    → IsRequest method page http_ver rest
    → webserv w (some (request_line method page http_ver rest))
      ≡ respond w (record { method = method; page = page; http_ver = http_ver })
webserv-request_line w [] page http_ver rest r = absurd (r.method_some refl)
webserv-request_line w (m ∷ ms) page http_ver rest r =
    webserv-respond w m (ms ++ b' ' ∷ (page ++ b' ' ∷ (http_ver ++ 13 ∷ 10 ∷ rest))) _ r.no_nul
      r.room
      (protocol_parser-request_line (m ∷ ms) page http_ver rest r.method_plain r.page_plain
        r.http_ver_plain r.method_some r.page_some r.http_ver_some r.method_fits r.page_fits
        r.http_ver_fits)

pub respond_page :
    (w : World) (page http_ver bytes date_str : Bytes)
    → length (w.root ++ page) < max_line
    → w.readable (w.root ++ page) ≡ true
    → w.content (w.root ++ page) ≡ some bytes
    → w.st_size (w.root ++ page) ≡ length bytes
    → length bytes < 2 ^ 31
    → date_text w.now ≡ some date_str
    → length (header_text http_ver date_str (codes "200 OK") (pos (length bytes))) < max_line
    → respond w (record { method = codes "GET"; page = page; http_ver = http_ver })
      ≡ some (record {
        ret = pos 1;
        written =
            header_text http_ver date_str (codes "200 OK") (pos (length bytes))
            ∷ page_blocks (length bytes + 1) bytes;
      })
unfolding respond sendpage body_blocks
respond_page w page v bytes d path_fits can opens sized small now header_fits =
    ground (arith, to_int-pos (length bytes))

-- A GET request for a file that the server can read, whose path fits its array, which `stat` reports
-- with its length, below 2 ^ 31, and whose header fits its array: `webserv` returns 1, and it
-- writes the header with "200 OK" and that length, and then blocks that make up the file.
pub webserv_get :
    (w : World) (page http_ver rest bytes date_str : Bytes)
    → IsRequest (codes "GET") page http_ver rest
    → length (w.root ++ page) < max_line
    → w.readable (w.root ++ page) ≡ true
    → w.content (w.root ++ page) ≡ some bytes
    → w.st_size (w.root ++ page) ≡ length bytes
    → length bytes < 2 ^ 31
    → date_text w.now ≡ some date_str
    → length (header_text http_ver date_str (codes "200 OK") (pos (length bytes))) < max_line
    → (blocks : List Bytes) × (webserv w (some (request_line (codes "GET") page http_ver rest))
        ≡ some (record {
          ret = pos 1;
          written = header_text http_ver date_str (codes "200 OK") (pos (length bytes)) ∷ blocks;
        }))
      × (concat blocks ≡ bytes)
webserv_get w page v rest bytes d r path_fits can opens sized small now header_fits = (
  page_blocks (length bytes + 1) bytes,
  webserv-request_line w (codes "GET") page v rest r
      ∙ respond_page w page v bytes d path_fits can opens sized small now header_fits,
  page_blocks-concat (length bytes + 1) bytes (omega arith),
)
