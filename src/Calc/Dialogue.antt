-- ===== src/Calc/Dialogue.antt =====
-- A whole session of the UDP client with its server.
use mathlib.Core.List.{append_assoc, append-nil}
use network_ex.Common.{
  ℕ, suc, ◌^◌, ◌≤◌, ◌<◌, ◌≡◌, ◌≢◌, refl, sym, ap, ◌∙◌, Option, some, List, [], ◌∷◌, ◌++◌, true, All,
  All-append, map, length, length-append, arith,
}
use network_ex.Common.Bytes.{Bytes, codes, c_string, c_string-append}
use network_ex.Common.Int.{ℤ, pos, negsuc, IsInt, pattern_of}
use network_ex.Common.Decimal.{decimal, decimal_ℤ, decimal-All, length-decimal}
use network_ex.Common.Fgets.{take_line, take_line-line}
use network_ex.Calc.Arith.{CalData}
use network_ex.Calc.Udp
use network_ex.Calc.Udp.{Printed, print, serve}
use network_ex.Calc.Input.{Input, sends, ask}
use network_ex.Calc.Answers.{exact}
use network_ex.Calc.Typed.{question, typed_answer}
use network_ex.Calc.Client.{
  line_max, read_msg, asked_of, then_printed, one_round, client_loop, then_reply, then_rounds,
  serve_loop,
}

-- A question that is typed, with its exact answer.
pub record Problem : Type 0 where
  pub left : ℤ
  pub op : ℕ
  pub right : ℕ
  pub answer : ℤ

pub record IsProblem (p : Problem) : Type 0 where
  pub left_int : IsInt p.left
  pub right_int : p.right < 2 ^ 31
  pub answer_int : IsInt p.answer
  pub is_exact : exact p.op p.left (pos p.right) ≡ some p.answer

-- The line without its newline.
abbrev front : Problem → Bytes
front p = decimal_ℤ p.left ++ p.op ∷ decimal p.right

abbrev pub line_of : Problem → Bytes
line_of p = question p.left p.op p.right

line_of-append : (p : Problem) (rest : Bytes) → line_of p ++ rest ≡ front p ++ 10 ∷ rest
line_of-append p rest = simp (append_assoc)

All-weaken : {P Q : ℕ → Type 0} (s : Bytes) → ((b : ℕ) → P b → Q b) → All P s → All Q s
All-weaken [] f h = tt
All-weaken (b ∷ s) f h = (f b h.0, All-weaken s f h.1)

exact-op : (op : ℕ) (a b c : ℤ) → exact op a b ≡ some c → b'*' ≤ op
unfolding exact
exact-op op a b c h = ground arith

decimal_ℤ-bytes : (z : ℤ) → All (λ b. b'*' ≤ b) (decimal_ℤ z)
unfolding decimal_ℤ
decimal_ℤ-bytes (pos n) = All-weaken (decimal n) (λ b h. omega arith) (decimal-All n)
decimal_ℤ-bytes (negsuc n) =
    (omega arith, All-weaken (decimal (suc n)) (λ b h. omega arith) (decimal-All (suc n)))

front-bytes : (p : Problem) → IsProblem p → All (λ b. b'*' ≤ b) (front p)
front-bytes p h =
    All-append (λ b. b'*' ≤ b) (decimal_ℤ p.left) (p.op ∷ decimal p.right) (decimal_ℤ-bytes p.left)
      (
        exact-op p.op p.left (pos p.right) p.answer h.is_exact,
        All-weaken (decimal p.right) (λ b h. omega arith) (decimal-All p.right),
      )

length-decimal_ℤ : (z : ℤ) → IsInt z → length (decimal_ℤ z) ≤ 11
unfolding decimal_ℤ
length-decimal_ℤ (pos n) h = omega (arith, length-decimal 9 n (omega arith))
length-decimal_ℤ (negsuc n) h = omega (arith, length-decimal 9 (suc n) (omega arith))

front-length : (p : Problem) → IsProblem p → length (front p) < line_max
front-length p h = omega (
  arith,
  length-append (decimal_ℤ p.left) (p.op ∷ decimal p.right),
  length-decimal_ℤ p.left h.left_int,
  length-decimal 9 p.right (omega (arith, h.right_int)),
)

read_msg-line :
    (msg : Option Bytes) (s rest : Bytes)
    → All (λ b. b'*' ≤ b) s
    → length s < line_max
    → read_msg msg (s ++ 10 ∷ rest) ≡ (some (s ++ 10 ∷ []), rest)
read_msg-line msg s rest high room =
    starts s
    ∙ ap (λ (q : Bytes × Bytes). (c_string (q.0 ++ 0 ∷ []), q.1))
        (take_line-line line_max s rest (All-weaken s (λ b h e. omega arith) high) room)
    ∙ ap (λ o. (o, rest))
        (c_string-append (s ++ 10 ∷ []) [] (
          All-append (λ b. b ≢ 0) s (10 ∷ []) (All-weaken s (λ b h e. omega arith) high)
            (omega arith)))
  where
    starts :
        (t : Bytes)
        → read_msg msg (t ++ 10 ∷ rest) ≡ (
          c_string ((take_line line_max (t ++ 10 ∷ rest)).0 ++ 0 ∷ []),
          (take_line line_max (t ++ 10 ∷ rest)).1,
        )
    starts [] = refl
    starts (b ∷ t) = refl

read_msg-problem :
    (msg : Option Bytes) (p : Problem) (rest : Bytes)
    → IsProblem p
    → read_msg msg (line_of p ++ rest) ≡ (some (line_of p), rest)
read_msg-problem msg p rest h =
    ap (read_msg msg) (line_of-append p rest)
    ∙ read_msg-line msg (front p) rest (front-bytes p h) (front-length p h)
    ∙ ap (λ l. (some l, rest)) (sym (line_of-append p []) ∙ append-nil (line_of p))

client_loop-problem :
    (msg : Option Bytes) (v v' : Input) (p : Problem) (rest : Bytes) (sdata reply : CalData)
    (replies : List (Option CalData))
    → IsProblem p
    → ask (line_of p) v ≡ some (sends v' sdata)
    → client_loop msg v (line_of p ++ rest) (some reply ∷ replies)
      ≡ then_printed sdata (print reply) (client_loop (some (line_of p)) v' rest replies)
unfolding client_loop
client_loop-problem msg v v' p rest sdata reply replies h asks =
    ap
      (λ (q : Option Bytes × Bytes).
        one_round (some reply) (λ v2. client_loop q.0 v2 q.1 replies) (asked_of q.0 v))
      (read_msg-problem msg p rest h)
    ∙ ap (one_round (some reply) (λ v2. client_loop (some (line_of p)) v2 rest replies)) asks

abbrev pub quit_line : Bytes
quit_line = codes "quit" ++ 10 ∷ []

client_loop-quit :
    (msg : Option Bytes) (v : Input) (rest : Bytes)
    → client_loop msg v (quit_line ++ rest) []
      ≡ some (record { sent = []; printed = []; ended = true })
unfolding client_loop take_line c_string ask
client_loop-quit msg v rest = refl

serve_loop-served :
    (prev : ℕ) (datagram : CalData) (served : Udp.Served) (datagrams replies : List CalData)
    → serve prev datagram ≡ some served
    → serve_loop served.cal_result datagrams ≡ some replies
    → serve_loop prev (datagram ∷ datagrams) ≡ some (served.rdata ∷ replies)
unfolding serve_loop
serve_loop-served prev datagram served datagrams replies h more =
    ap (then_rounds (λ n. serve_loop n datagrams)) h ∙ ap (then_reply served.rdata) more

abbrev pub typed : List Problem → Bytes
typed [] = []
typed (p ∷ ps) = line_of p ++ typed ps

-- The line that is printed for a question.
abbrev pub solved : Problem → Printed
solved p = record {
  left_num = pattern_of p.left;
  op = p.op;
  right_num = p.right;
  result = pattern_of p.answer;
}

-- Questions that are typed one to a line, each an `int`, one of + - * / and a number that is not negative
-- and fits an `int`, with an exact answer that is an `int`; then "quit" and anything. Whatever the
-- variables of the client and the number of the server hold before, the client sends a datagram for each
-- question, the server answers each of them, and with these answers received in order, the client prints
-- each question with its exact answer, in order, and ends.
pub udp_dialogue :
    (prev : ℕ) (msg : Option Bytes) (v : Input) (problems : List Problem) (rest : Bytes)
    → All IsProblem problems
    → (datagrams : List CalData) × (replies : List CalData) × (serve_loop prev datagrams
        ≡ some replies)
      × (client_loop msg v (typed problems ++ (quit_line ++ rest)) (map some replies)
          ≡ some (record { sent = datagrams; printed = map solved problems; ended = true }))
unfolding serve_loop
udp_dialogue prev msg v [] rest h = ([], [], refl, client_loop-quit msg v rest)
udp_dialogue prev msg v (p ∷ ps) rest h =
    let (v', sdata, served, asks, serves, shows) =
      typed_answer v prev p.op p.right p.left p.answer h.0.left_int h.0.right_int h.0.answer_int
        h.0.is_exact in
    let (datagrams, replies, answered, talks) =
      udp_dialogue served.cal_result (some (line_of p)) v' ps rest h.1 in
    (
      sdata ∷ datagrams,
      served.rdata ∷ replies,
      serve_loop-served prev sdata served datagrams replies serves answered,
      ap (λ s. client_loop msg v s (map some (served.rdata ∷ replies)))
            (append_assoc (line_of p) (typed ps) (quit_line ++ rest))
          ∙ client_loop-problem msg v v' p (typed ps ++ (quit_line ++ rest)) sdata served.rdata
              (map some replies) h.0 asks
          ∙ ap (then_printed sdata (print served.rdata)) talks
          ∙ ap
              (λ shown. some (record {
                sent = sdata ∷ datagrams;
                printed = shown ∷ map solved ps;
                ended = true;
              }))
              shows,
    )
