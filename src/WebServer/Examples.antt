-- ===== src/WebServer/Examples.antt =====
-- A server with one page, on the second of January 2026.
use network_ex.Common.{
  ◌<◌, ◌≡◌, ◌∙◌, refl, ◌⊎◌, none, some, List, [], ◌∷◌, ◌++◌, length, concat, true, All, arith,
  if◌then◌else◌,
}
use network_ex.Common.Bytes.{Bytes, codes, bytes_eq, c_string}
use network_ex.Common.Int.{pos, negsuc}
use network_ex.Common.Decimal.{decimal, decimal_ℤ, two_digits}
use network_ex.WebServer.Parser.{cleared, protocol_parser, is_delimiter}
use network_ex.WebServer.Words.{words, request_of, NoDelimiter, request_line, protocol_parser-words}
use network_ex.WebServer.Page.{
  World, max_line, entry, date_text, header_start, header_end, header_text, page_blocks, Answer,
  webserv,
}
use network_ex.WebServer.Response.{IsFile, IsFramed, webserv-IsFramed}
use network_ex.WebServer.Listener.{Setup, Round, host, server_main}
use network_ex.WebServer.Children.{IsSound, all_forked, forked_count, every_child_framed}
use network_ex.WebServer.Get.{IsRequest, webserv-request_line, respond_page, webserv_get}

abbrev page : Bytes
page = codes "/a.html"

abbrev path : Bytes
path = codes "/www/a.html"

abbrev html : Bytes
html = codes "<p>hello</p>"

abbrev world : World
world = record {
  root = codes "/www";
  readable = λ p. bytes_eq p path;
  st_size = λ p. length html;
  content = λ p. if bytes_eq p path then some html else none;
  now = record {
    tm_wday = 5;
    tm_mday = 2;
    tm_mon = 0;
    tm_year = 126;
    tm_hour = 9;
    tm_min = 5;
    tm_sec = 30;
  };
}

world-IsFile : (p : Bytes) → world.readable p ≡ true → IsFile world p
world-IsFile p can = record {
  bytes = html;
  opens = ground arith;
  sized = refl;
  small = omega arith;
}

abbrev version : Bytes
version = codes "HTTP/1.1"

abbrev rest : Bytes
rest = codes "Host: here"

abbrev date_str : Bytes
date_str = codes "Fri, 2 Jan 2026 09:05:30 GMT"

today : date_text world.now ≡ some date_str
unfolding date_text entry c_string two_digits decimal
today = refl

plain_get : NoDelimiter (codes "GET")
unfolding is_delimiter
plain_get = ground arith

plain_page : NoDelimiter page
unfolding is_delimiter
plain_page = ground arith

plain_version : NoDelimiter version
unfolding is_delimiter
plain_version = ground arith

asked : IsRequest (codes "GET") page version rest
asked = record {
  no_nul = omega arith;
  room = omega arith;
  method_plain = plain_get;
  page_plain = plain_page;
  http_ver_plain = plain_version;
  method_some = λ e. ground arith;
  page_some = λ e. ground arith;
  http_ver_some = λ e. ground arith;
  method_fits = omega arith;
  page_fits = omega arith;
  http_ver_fits = omega arith;
}

small_header : length (header_text version date_str (codes "200 OK") (pos (length html))) < 1024
unfolding header_text header_start header_end decimal_ℤ decimal
small_header = omega arith

webserv_get_example :
    (blocks : List Bytes) × (webserv world (some (request_line (codes "GET") page version rest))
      ≡ some (record {
        ret = pos 1;
        written = header_text version date_str (codes "200 OK") (pos 12) ∷ blocks;
      }))
    × (concat blocks ≡ html)
webserv_get_example =
    webserv_get world page version rest html date_str asked (omega arith) refl refl refl
      (omega arith) today small_header

abbrev the_answer : Answer
the_answer = record {
  ret = pos 1;
  written = header_text version date_str (codes "200 OK") (pos 12) ∷ html ∷ [];
}

answers : webserv world (some (request_line (codes "GET") page version rest)) ≡ some the_answer
unfolding page_blocks
answers =
    webserv-request_line world (codes "GET") page version rest asked
    ∙ respond_page world page version html date_str (omega arith) refl refl refl (omega arith) today
        small_header

webserv-IsFramed_example :
    ((the_answer.ret ≡ negsuc 0) × (the_answer.written ≡ []))
    ⊎ ((the_answer.ret ≡ pos 1) × IsFramed the_answer.written)
webserv-IsFramed_example =
    webserv-IsFramed world (some (request_line (codes "GET") page version rest)) the_answer
      (λ block str request i c p get can. world-IsFile (world.root ++ request.page) can) answers

protocol_parser-words_example :
    protocol_parser (codes "GET  /a.html") cleared ≡ request_of (words (codes "GET  /a.html"))
protocol_parser-words_example = protocol_parser-words (codes "GET  /a.html")

abbrev all_works : Setup
all_works = record { socket = true; binds = true; listens = true }

-- A request, and a client that sends nothing.
abbrev two_rounds : List Round
two_rounds =
    record {
      accepted = some (some (request_line (codes "GET") page version rest));
      forks = true;
      world = world;
    }
    ∷ record { accepted = some (some []); forks = true; world = world }
    ∷ []

hosts :
    server_main (codes "/www" ∷ []) all_works two_rounds
    ≡ some (some (host (codes "/www") two_rounds))
unfolding server_main
hosts = refl

every_child_framed_example :
    (4 < max_line)
    × All IsSound (host (codes "/www") two_rounds).answers
    × ((host (codes "/www") two_rounds).waits ≡ all_forked two_rounds)
    × (length (host (codes "/www") two_rounds).answers ≡ forked_count two_rounds)
every_child_framed_example =
    every_child_framed (codes "/www") all_works two_rounds (host (codes "/www") two_rounds)
      (
        (λ input a block str request i c p get can.
            world-IsFile (codes "/www" ++ request.page) can),
        (
          (λ input a block str request i c p get can.
              world-IsFile (codes "/www" ++ request.page) can),
          tt,
        ),
      )
      hosts
