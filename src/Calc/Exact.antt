-- ===== src/Calc/Exact.antt =====
-- What the clients of the TCP calculator get for questions that have an answer.
use network_ex.Common.{
  ℕ, ◌^◌, ◌<◌, ◌≡◌, refl, ap, ◌∙◌, inl, inr, some, List, [], ◌∷◌, true, All, map, arith,
}
use network_ex.Common.Int.{ℤ, pos, negsuc, ◌+ℤ◌, ◌-ℤ◌, ◌*ℤ◌, quot, pattern_of}
use network_ex.Common.Words.{htonl, ntohl, ntohs, ntohl-htonl}
use network_ex.Calc.Arith.{CalData}
use network_ex.Calc.Answers.{exact, exact-eq}
use network_ex.Calc.Tcp.{extend, computed, Served, serve, Round, tcp_loop}

-- The integers of a `short int`.
abbrev pub IsShort : ℤ → Type 0
IsShort (pos n) = n < 2 ^ 15
IsShort (negsuc n) = n < 2 ^ 15

-- A question whose exact answer is a `short int`.
pub record IsQuestion (rdata : CalData) (answer : ℤ) : Type 0 where
  pub answers :
      exact rdata.op (pos (ntohs rdata.left_num)) (pos (ntohs rdata.right_num)) ≡ some answer
  pub is_short : IsShort answer

short-lt : (c : ℤ) → IsShort c → pattern_of c < 2 ^ 32
short-lt (pos n) h = omega arith
short-lt (negsuc n) h = omega arith

computed-exact :
    (prev op left right : ℕ) (c : ℤ)
    → exact op (pos left) (pos right) ≡ some c
    → IsShort c
    → extend (computed prev op left right) ≡ pattern_of c
unfolding computed ◌+ℤ◌ ◌-ℤ◌ ◌*ℤ◌ quot
computed-exact prev op left right c h small = elim (exact-eq op (pos left) (pos right) c h) [
  | inl (plus, e) ↦ ground arith
  | inr (inl (minus, e)) ↦ ground arith
  | inr (inr (inl (times, e))) ↦ ground arith
  | inr (inr (inr (over, e, n))) ↦ ground arith
]

serve-exact_result :
    (prev : ℕ) (rdata : CalData) (c : ℤ)
    → IsQuestion rdata c
    → ntohl (serve prev rdata).rdata.result ≡ pattern_of c
unfolding serve
serve-exact_result prev rdata c q =
    ap (λ p. ntohl (htonl p))
      (computed-exact prev rdata.op (ntohs rdata.left_num) (ntohs rdata.right_num) c q.answers
        q.is_short)
    ∙ ntohl-htonl (pattern_of c) (short-lt c q.is_short)

-- A connection that delivers its question whole.
abbrev pub asks : CalData × ℤ → Round
asks q = record { accepts = true; read = λ old. q.0 }

-- Clients one after the other, each with one of + - * /, two operands that `ntohs` gives, no division
-- by 0, and an exact answer that fits a `short int`, whatever the server held before: it waits for
-- more, and has written to each, in order, a structure with that answer as its `result`.
pub tcp_answers :
    (cal_result : ℕ) (rdata : CalData) (questions : List (CalData × ℤ))
    → All (λ q. IsQuestion q.0 q.1) questions
    → ((tcp_loop cal_result rdata (map asks questions)).waits ≡ true)
      × (map (λ r. ntohl r.result) (tcp_loop cal_result rdata (map asks questions)).written
          ≡ map (λ q. pattern_of q.1) questions)
unfolding tcp_loop
tcp_answers cal_result rdata [] h = (refl, refl)
tcp_answers cal_result rdata (q ∷ questions) h =
    let served : Served = serve cal_result q.0 in
    let (waits, results) = tcp_answers served.cal_result served.rdata questions h.1 in
    (
      waits,
      ap
            (λ p.
              p
              ∷ map (λ r. ntohl r.result)
                  (tcp_loop served.cal_result served.rdata (map asks questions)).written)
            (serve-exact_result cal_result q.0 q.1 h.0)
          ∙ ap (λ ps. pattern_of q.1 ∷ ps) results,
    )
