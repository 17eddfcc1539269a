-- ===== src/EchoLoop/Ended.antt =====
-- What the two servers leave behind once a client has ended.
use mathlib.Core.Path.{subst, fun_ext}
use network_ex.Common.{
  ℕ, suc, ◌+◌, ◌≤◌, ◌≡◌, refl, sym, ap, ◌∙◌, Option, none, some, List, [], ◌∷◌, ◌++◌, Bool, true,
  false, All, map, length, leb, Option-cases, inl, inr, arith,
}
use network_ex.Common.Bytes.{Bytes, c_string-filled, filled}
use network_ex.EchoLoop.Servers.{buf_size, udomain, serve_once}
use network_ex.EchoLoop.Child.{IsText}
use network_ex.EchoLoop.Mains.{
  Incoming, ends, Handled, then_answers, then_next, udomain_loop, loops, udomain_main, Descriptors,
  set_open, Round, act, blocks, then_sent, echo_round, echo_rounds,
}

-- Texts, and then the end of the stream.
abbrev pub ended : List Bytes → Incoming
ended texts = map some texts ++ some [] ∷ []

udomain-ended : (texts : List Bytes) → All IsText texts → udomain (ended texts) ≡ some texts
unfolding udomain
udomain-ended [] h = refl
udomain-ended ([] ∷ texts) h = absurd (h.0.not_empty refl)
udomain-ended ((b ∷ bs) ∷ texts) h =
    ground (arith, c_string-filled buf_size (b ∷ bs) h.0.no_nul h.0.room, udomain-ended texts h.1)

ends-ended : (texts : List Bytes) → ends (ended texts) ≡ true
unfolding ends
ends-ended [] = refl
ends-ended ([] ∷ texts) = refl
ends-ended ((b ∷ bs) ∷ texts) = ends-ended texts

udomain_loop-ended :
    (clients : List (List Bytes))
    → All (All IsText) clients
    → udomain_loop (map (λ texts. some (ended texts)) clients)
      ≡ some (record { answers = clients; held = length clients; waits = true })
unfolding udomain_loop
udomain_loop-ended [] h = refl
udomain_loop-ended (texts ∷ clients) h =
    ap (λ e. then_next e (udomain (ended texts)) more) (ends-ended texts)
    ∙ ap (λ o. then_next true o more) (udomain-ended texts h.0)
    ∙ ap (then_answers texts) (udomain_loop-ended clients h.1)
    ∙ ap (λ n. some (record { answers = texts ∷ clients; held = n; waits = true })) one_more
  where
    one_more : length clients + 1 ≡ suc (length clients)
    one_more = omega arith

    more : Option Handled
    more = udomain_loop (map (λ ts. some (ended ts)) clients)

-- A path that fits, calls that work before the loop, and clients one after the other that send texts,
-- each with room for a NUL in the buffer, and end. Each has its texts back, in order; the server waits
-- for more, and holds one descriptor for each client that has ended.
pub udomain_main_serves :
    (path_size : ℕ) (path : Bytes) (clients : List (List Bytes))
    → length path ≤ path_size
    → All (All IsText) clients
    → udomain_main path_size path
        (record { socket_opens = true; binds = true; listens = true })
        (map (λ texts. some (ended texts)) clients)
      ≡ some (loops (record { answers = clients; held = length clients; waits = true }))
unfolding udomain_main
udomain_main_serves path_size path clients fits h =
    let room : leb (length path) path_size ≡ true = ground arith in
    rw (room, udomain_loop-ended clients h) refl

-- `accept` gives a descriptor that is not open where there is no connection.
abbrev pub IsNew : Descriptors → Round → Type 0
IsNew fds r = (fd : ℕ) → r.accepted ≡ some fd → fds fd ≡ false

-- What a client is sent: the whole buffer with its block, once.
abbrev pub answer_to : Option Bytes → Bool → List Bytes
answer_to none writes = []
answer_to (some []) writes = []
answer_to (some (b ∷ bs)) false = []
answer_to (some (b ∷ bs)) true = filled buf_size (b ∷ bs) ∷ []

abbrev pub answers_to : List Round → List (List Bytes)
answers_to [] = []
answers_to (r ∷ rounds) = then_sent r.accepted (answer_to r.received r.writes) (answers_to rounds)

closed-act :
    (fds : Descriptors) (fd : ℕ) (received : Option Bytes) (writes : Bool) (n : ℕ)
    → fds fd ≡ false
    → act (set_open fds fd true) fd (serve_once received writes) n ≡ fds n
unfolding serve_once
closed-act fds fd none writes n h = ground arith
closed-act fds fd (some []) writes n h = ground arith
closed-act fds fd (some (b ∷ bs)) true n h = ground arith
closed-act fds fd (some (b ∷ bs)) false n h = ground arith

blocks-serve_once :
    (received : Option Bytes) (writes : Bool)
    → blocks (serve_once received writes) ≡ answer_to received writes
unfolding serve_once
blocks-serve_once none writes = refl
blocks-serve_once (some []) writes = refl
blocks-serve_once (some (b ∷ bs)) true = refl
blocks-serve_once (some (b ∷ bs)) false = refl

echo_round-closed :
    (fds : Descriptors) (r : Round) (n : ℕ) → IsNew fds r → echo_round fds r n ≡ fds n
unfolding echo_round
echo_round-closed fds r n h = elim (Option-cases r.accepted) [
  | inl failed ↦ rw failed refl
  | inr (fd, accepted) ↦ rw accepted (closed-act fds fd r.received r.writes n (h fd accepted))
]

echo_rounds-blocks :
    (fds : Descriptors) (rounds : List Round) → (echo_rounds fds rounds).1 ≡ answers_to rounds
unfolding echo_rounds
echo_rounds-blocks fds [] = refl
echo_rounds-blocks fds (r ∷ rounds) =
    ap (λ w. then_sent r.accepted w (echo_rounds (echo_round fds r) rounds).1)
      (blocks-serve_once r.received r.writes)
    ∙ ap (then_sent r.accepted (answer_to r.received r.writes))
        (echo_rounds-blocks (echo_round fds r) rounds)

echo_rounds-closed :
    (fds : Descriptors) (rounds : List Round)
    → All (IsNew fds) rounds
    → (echo_rounds fds rounds).0 ≡ fds
unfolding echo_rounds
echo_rounds-closed fds [] h = refl
echo_rounds-closed fds (r ∷ rounds) h =
    let same : echo_round fds r ≡ fds = fun_ext (λ n. echo_round-closed fds r n h.0) in
    echo_rounds-closed (echo_round fds r) rounds (subst (λ d. All (IsNew d) rounds) (sym same) h.1)
    ∙ same

-- Any rounds of `main` of echo_server, in which `accept` fails or gives a descriptor that was not open
-- before. Whatever `read` and `write` answer, afterwards exactly the descriptors are open that were open
-- before; each client that sends a block has the whole buffer with that block once, where `write`
-- works, and the others have nothing.
pub echo_rounds_lem :
    (fds : Descriptors) (rounds : List Round)
    → All (IsNew fds) rounds
    → ((echo_rounds fds rounds).0 ≡ fds) × ((echo_rounds fds rounds).1 ≡ answers_to rounds)
echo_rounds_lem fds rounds h = (echo_rounds-closed fds rounds h, echo_rounds-blocks fds rounds)
