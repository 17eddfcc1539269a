-- ===== src/Calc/Typed.antt =====
-- From the keyboard of the UDP client to what it prints.
use network_ex.Common.{ℕ, ◌^◌, ◌<◌, ◌≡◌, refl, some, [], ◌∷◌, ◌++◌, true, false, take, arith}
use network_ex.Common.Bytes.{Bytes, codes, bytes_eq}
use network_ex.Common.Int.{ℤ, pos, negsuc, IsInt, pattern_of}
use network_ex.Common.Decimal.{decimal, decimal_ℤ, is_digit}
use network_ex.Calc.Arith.{CalData}
use network_ex.Calc.Udp
use network_ex.Calc.Answers.{exact, udp_answers}
use network_ex.Common.Scanf.{span, matched}
use network_ex.Common.ScanfLaws.{
  Digits, decimal-Digits, scan_digits-decimal, scan_int-Digits, scan_int-decimal_ℤ,
}
use network_ex.Calc.Input.{Input, scan_op, scan_line, sends, ask}

scan_op-Digits :
    (op : ℕ) (ds s : Bytes)
    → is_digit op ≡ false
    → Digits ds
    → scan_op (op ∷ (ds ++ s)) ≡ matched op (ds ++ s)
unfolding scan_op span
scan_op-Digits op [] s no_digit h = absurd (h.0 refl)
scan_op-Digits op (d ∷ ds) s no_digit h = let is_one : is_digit d ≡ true = h.1.0 in ground arith

-- The line for a question.
abbrev pub question : ℤ → ℕ → ℕ → Bytes
question a op m = decimal_ℤ a ++ op ∷ (decimal m ++ 10 ∷ [])

scan_line-question :
    (a : ℤ) (op m : ℕ) (v : Input)
    → IsInt a
    → m < 2 ^ 31
    → is_digit op ≡ false
    → scan_line (question a op m) v
      ≡ some (record { left_num = pattern_of a; op = op; right_num = m })
unfolding scan_line
scan_line-question a op m v ha hm no_digit = ground (
  arith,
  scan_int-decimal_ℤ a (op ∷ (decimal m ++ 10 ∷ [])) ha no_digit,
  scan_op-Digits op (decimal m) (10 ∷ []) no_digit (decimal-Digits m),
  scan_int-Digits (decimal m) (10 ∷ []) (decimal-Digits m),
  scan_digits-decimal false m (10 ∷ []) (ground arith) refl,
)

-- A question does not end the loop: it starts with a digit or a sign.
question-goes_on :
    (a : ℤ) (op m : ℕ) → bytes_eq (take 5 (question a op m)) (codes "quit" ++ 10 ∷ []) ≡ false
unfolding decimal_ℤ
question-goes_on (negsuc n) op m = refl
question-goes_on (pos n) op m = starts (decimal n) (op ∷ (decimal m ++ 10 ∷ [])) (decimal-Digits n)
  where
    starts :
        (ds s : Bytes) → Digits ds → bytes_eq (take 5 (ds ++ s)) (codes "quit" ++ 10 ∷ []) ≡ false
    starts [] s h = absurd (h.0 refl)
    starts (d ∷ ds) s h = let is_one : is_digit d ≡ true = h.1.0 in ground arith

exact-operation : (op : ℕ) (a b c : ℤ) → exact op a b ≡ some c → is_digit op ≡ false
unfolding exact
exact-operation op a b c h = ground arith

-- Let the line that is typed be an `int`, one of the operations + - * /, and a number that is not
-- negative and fits an `int`, without spaces, no division by 0, and let the exact result fit an `int`
-- too. Whatever the client's variables hold and whatever the server computed before: the client sends
-- a datagram, and what it prints of the server's answer is the question and the exact result.
pub typed_answer :
    (v : Input) (prev op m : ℕ) (a c : ℤ)
    → IsInt a
    → m < 2 ^ 31
    → IsInt c
    → exact op a (pos m) ≡ some c
    → (v' : Input) × (datagram : CalData) × (served : Udp.Served) × (ask (question a op m) v
        ≡ some (sends v' datagram))
      × (Udp.serve prev datagram ≡ some served)
      × (Udp.print served.rdata
          ≡ record { left_num = pattern_of a; op = op; right_num = m; result = pattern_of c })
unfolding ask
typed_answer v prev op m a c ha hm hc h =
    let (served, answers, prints) = udp_answers prev op a (pos m) c ha hm hc h in
    (
      record { left_num = pattern_of a; op = op; right_num = m },
      Udp.request (pattern_of a) op m,
      served,
      ground (
        arith,
        question-goes_on a op m,
        scan_line-question a op m v ha hm (exact-operation op a (pos m) c h),
      ),
      answers,
      prints,
    )
