-- ===== src/Calc/Examples.antt =====
-- -7 / 2 over UDP, from the keyboard too, and two clients over TCP.
use network_ex.Common.{List, [], ◌∷◌, ◌++◌, none, true, map, ◌≡◌, refl, some, arith}
use network_ex.Calc.Exact.{IsQuestion, asks, tcp_answers}
use network_ex.Common.Int.{◌+ℤ◌, pos, negsuc, pattern_of, quot}
use network_ex.Common.Words.{ntohl, htons, ntohs}
use network_ex.Calc.Arith.{CalData}
use network_ex.Calc.Udp
use network_ex.Calc.Tcp
use network_ex.Calc.Input.{Input}
use network_ex.Calc.Client.{client_loop, serve_loop}
use network_ex.Calc.Dialogue.{Problem, IsProblem, typed, quit_line, solved, udp_dialogue}
use network_ex.Calc.Answers.{exact, udp_answers}

minus_seven_half : exact b'/' (negsuc 6) (pos 2) ≡ some (negsuc 2)
unfolding exact quot
minus_seven_half = refl

udp_answers_example :
    (served : Udp.Served) × (Udp.serve 5 (Udp.request (pattern_of (negsuc 6)) b'/' 2) ≡ some served)
    × (Udp.print served.rdata ≡ record {
      left_num = pattern_of (negsuc 6);
      op = b'/';
      right_num = 2;
      result = pattern_of (negsuc 2);
    })
udp_answers_example =
    udp_answers 5 b'/' (negsuc 6) (pos 2) (negsuc 2) (omega arith) (omega arith) (omega arith)
      minus_seven_half

abbrev over_zero : CalData
over_zero = record { left_num = htons 8; right_num = 0; op = b'/'; result = 0; error = 0 }

abbrev two_and_three : CalData
two_and_three = record { left_num = htons 2; right_num = htons 3; op = b'+'; result = 0; error = 0 }

abbrev before : Input
before = record { left_num = 0; op = 0; right_num = 0 }

-- 2 + 3, and 6 / 4.
abbrev six_over_four : CalData
six_over_four = record { left_num = htons 6; right_num = htons 4; op = b'/'; result = 0; error = 0 }

five : IsQuestion two_and_three (pos 5)
unfolding exact ntohs htons ◌+ℤ◌
five = record { answers = refl; is_short = omega arith }

one : IsQuestion six_over_four (pos 1)
unfolding exact ntohs htons quot
one = record { answers = refl; is_short = omega arith }

abbrev two_clients : List Tcp.Round
two_clients = asks (two_and_three, pos 5) ∷ asks (six_over_four, pos 1) ∷ []

tcp_answers_example :
    ((Tcp.tcp_loop 9 over_zero two_clients).waits ≡ true)
    × (map (λ r. ntohl r.result) (Tcp.tcp_loop 9 over_zero two_clients).written ≡ 5 ∷ 1 ∷ [])
tcp_answers_example =
    tcp_answers 9 over_zero ((two_and_three, pos 5) ∷ (six_over_four, pos 1) ∷ []) (five, (one, tt))

-- "-7/2" and "-7/2" again, then "quit".
abbrev problem : Problem
problem = record { left = negsuc 6; op = b'/'; right = 2; answer = negsuc 2 }

problem-IsProblem : IsProblem problem
problem-IsProblem = record {
  left_int = omega arith;
  right_int = omega arith;
  answer_int = omega arith;
  is_exact = minus_seven_half;
}

udp_dialogue_example :
    (datagrams : List CalData) × (replies : List CalData) × (serve_loop 5 datagrams ≡ some replies)
    × (client_loop none before
          (typed (problem ∷ problem ∷ []) ++ (quit_line ++ []))
          (map some replies)
        ≡ some (record {
          sent = datagrams;
          printed = solved problem ∷ solved problem ∷ [];
          ended = true;
        }))
udp_dialogue_example =
    udp_dialogue 5 none before (problem ∷ problem ∷ []) []
      (problem-IsProblem, (problem-IsProblem, tt))
