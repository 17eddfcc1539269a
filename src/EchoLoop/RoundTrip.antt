-- ===== src/EchoLoop/RoundTrip.antt =====
-- A line from the keyboard of 4_network/echo_client, through 4_network/echo_server, and back.
use mathlib.Core.List.{append_assoc}
use network_ex.Common.{
  ℕ, zero, suc, ◌+◌, ◌-◌, ◌≤◌, ◌<◌, ◌≡◌, ◌≢◌, refl, ap, ◌∙◌, some, [], ◌∷◌, ◌++◌, true, length,
  take, replicate, length-append, length-replicate, arith,
}
use network_ex.Common.Bytes.{Bytes, NulFree, codes, c_string, filled, c_string-filled}
use network_ex.EchoLoop.Servers.{buf_size, write, close, serve_once}
use network_ex.EchoLoop.Clients.{printed, question, answer}

take-replicate : (n k : ℕ) → n ≤ k → take n (replicate {A = ℕ} k 0) ≡ replicate n 0
take-replicate zero k h = refl
take-replicate (suc n) zero h = absurd (omega arith)
take-replicate (suc n) (suc k) h = ap (λ zs. 0 ∷ zs) (take-replicate n k (omega arith))

replicate-add : (a b : ℕ) → replicate {A = ℕ} a 0 ++ replicate b 0 ≡ replicate (a + b) 0
replicate-add zero b = let e : b ≡ 0 + b = omega arith in ap (λ k. replicate {A = ℕ} k 0) e
replicate-add (suc a) b =
    let e : suc (a + b) ≡ suc a + b = omega arith in
    ap (λ zs. 0 ∷ zs) (replicate-add a b) ∙ ap (λ k. replicate {A = ℕ} k 0) e

-- The start of a text that zeros follow, with all of the text in it.
take-zeros :
    (s : Bytes) (n k : ℕ)
    → length s ≤ n
    → n ≤ length s + k
    → take n (s ++ replicate k 0) ≡ s ++ replicate (n - length s) 0
take-zeros [] n k low high =
    let e : n ≡ n - 0 = omega arith in
    take-replicate n k (omega arith) ∙ ap (λ j. replicate {A = ℕ} j 0) e
take-zeros (b ∷ s) zero k low high = absurd (omega arith)
take-zeros (b ∷ s) (suc n) k low high =
    let e : n - length s ≡ suc n - suc (length s) = omega arith in
    ap (λ zs. b ∷ zs) (take-zeros s n k (omega arith) (omega arith))
    ∙ ap (λ j. b ∷ (s ++ replicate j 0)) e

-- A buffer filled with the start of another that was filled with a text.
filled-take :
    (size n : ℕ) (s : Bytes)
    → length s ≤ n
    → n ≤ size
    → filled size (take n (filled size s)) ≡ filled size s
filled-take size n s low high =
    let start : take n (filled size s) ≡ s ++ replicate (n - length s) 0 =
      take-zeros s n (size - length s) low (omega arith) in
    let long : length (s ++ replicate (n - length s) 0) ≡ n = omega (
      arith,
      length-append s (replicate (n - length s) 0),
      length-replicate {A = ℕ} (n - length s) 0,
    ) in
    let whole : n - length s + (size - n) ≡ size - length s = omega arith in
    rw (start, long)
      (append_assoc s (replicate (n - length s) 0) (replicate (size - n) 0)
        ∙ ap (λ zs. s ++ zs)
            (replicate-add (n - length s) (size - n) ∙ ap (λ j. replicate {A = ℕ} j 0) whole))

serve_once-some :
    (block : Bytes)
    → 0 < length block
    → serve_once (some block) true ≡ write (filled buf_size block) ∷ close ∷ []
unfolding serve_once
serve_once-some [] h = absurd (omega arith)
serve_once-some (b ∷ bs) h = refl

answer-some :
    (block text : Bytes)
    → 0 < length block
    → c_string (filled buf_size block) ≡ some text
    → answer true (some block) ≡ some (printed (codes "read : " ++ text))
unfolding answer
answer-some [] text h e = absurd (omega arith)
answer-some (b ∷ bs) text h e = ground (arith, e)

length-take-filled :
    (n : ℕ) (s : Bytes)
    → length s ≤ n
    → n ≤ buf_size
    → length s ≤ length (take n (filled buf_size s))
length-take-filled n s low high =
    let start : take n (filled buf_size s) ≡ s ++ replicate (n - length s) 0 =
      take-zeros s n (buf_size - length s) low (omega arith) in
    rw start (omega (arith, length-append s (replicate (n - length s) 0)))

-- A line that is not empty, has no NUL and leaves room for one in the buffer. Let the one `read` of
-- the server give any start of the client's bytes that has all of the line, and the one `read` of the
-- client any such start of the server's answer. Then the server writes one buffer and closes the
-- connection once, and the client prints the line.
pub echo_round_trip :
    (line : Bytes) (n m : ℕ)
    → line ≢ []
    → NulFree line
    → length line < buf_size
    → length line ≤ n
    → n ≤ buf_size
    → length line ≤ m
    → m ≤ buf_size
    → (reply : Bytes) × (serve_once (some (take n (question (some line)))) true
        ≡ write reply ∷ close ∷ [])
      × (answer true (some (take m reply)) ≡ some (printed (codes "read : " ++ line)))
unfolding question
echo_round_trip [] n m some_line no_nul room n_low n_high m_low m_high = absurd (some_line refl)
echo_round_trip (b ∷ bs) n m some_line no_nul room n_low n_high m_low m_high = (
  filled buf_size (b ∷ bs),
  serve_once-some (take n (filled buf_size (b ∷ bs)))
        (omega (arith, length-take-filled n (b ∷ bs) n_low n_high))
      ∙ ap (λ r. write r ∷ close ∷ []) (filled-take buf_size n (b ∷ bs) n_low n_high),
  answer-some (take m (filled buf_size (b ∷ bs))) (b ∷ bs)
      (omega (arith, length-take-filled m (b ∷ bs) m_low m_high))
      (ap c_string (filled-take buf_size m (b ∷ bs) m_low m_high)
        ∙ c_string-filled buf_size (b ∷ bs) no_nul room),
)
