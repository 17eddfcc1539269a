-- ===== src/Echo/Ready.antt =====
-- Who is answered in a round of the `select` server.
use network_ex.Common.{
  ℕ, zero, suc, ◌+◌, ◌-◌, ◌≤◌, ◌<◌, ◌≡◌, ◌≢◌, refl, ap, sym, ◌∙◌, inl, inr, Option, some, List, [],
  ◌∷◌, map, length, true, false, if◌then◌else◌, arith, Bool-cases,
}
use network_ex.Common.Bytes.{Bytes, NulFree, filled, c_string-filled}
use network_ex.Common.Int.{ℤ, pos}
use network_ex.Echo.NonBlocking.{write}
use network_ex.Echo.Select.{
  line_size, FdSet, Server, Events, Served, then_output, is_quit, serve_ready, turn_of,
  select_round,
}

-- The ready descriptors among the `n` from `i` on, in order.
unfoldable pub ready_from : FdSet → ℕ → ℕ → List ℕ
ready_from allfds zero i = []
ready_from allfds (suc n) i =
    let rest = ready_from allfds n (i + 1) in if allfds i then i ∷ rest else rest

-- A descriptor that has sent text: some bytes, none of them NUL, with room for a NUL in the buffer,
-- and not the word that ends a connection.
pub record Says (ev : Events) (i : ℕ) (text : Bytes) : Type 0 where
  pub sent : ev.reads i ≡ some text
  pub not_empty : text ≢ []
  pub no_nul : NulFree text
  pub room : length text < line_size
  pub no_quit : is_quit (filled line_size text) ≡ false

serve_ready-text :
    (ev : Events) (n i m : ℕ) (fds : FdSet) (text : Bytes)
    → ev.allfds i ≡ true
    → Says ev i text
    → serve_ready ev (suc n) i (pos (suc m)) fds
      ≡ then_output (write i text) (serve_ready ev n (i + 1) (pos m) fds)
unfolding serve_ready
serve_ready-text ev n i m fds [] ready says = absurd (says.not_empty refl)
serve_ready-text ev n i m fds (b ∷ bs) ready says =
    ground
      (arith, says.sent, says.no_quit, c_string-filled line_size (b ∷ bs) says.no_nul says.room)

serve_ready-skip :
    (ev : Events) (n i : ℕ) (fd_num : ℤ) (fds : FdSet)
    → ev.allfds i ≡ false
    → serve_ready ev (suc n) i fd_num fds ≡ serve_ready ev n (i + 1) fd_num fds
unfolding serve_ready
serve_ready-skip ev n i fd_num fds idle = ground arith

ready_from-cons :
    (allfds : FdSet) (n i : ℕ)
    → allfds i ≡ true
    → ready_from allfds (suc n) i ≡ i ∷ ready_from allfds n (i + 1)
unfolding ready_from
ready_from-cons allfds n i ready = ground arith

ready_from-skip :
    (allfds : FdSet) (n i : ℕ)
    → allfds i ≡ false
    → ready_from allfds (suc n) i ≡ ready_from allfds n (i + 1)
unfolding ready_from
ready_from-skip allfds n i idle = ground arith

serve_ready_echoes :
    (ev : Events) (text : ℕ → Bytes) (n i m : ℕ) (fds : FdSet)
    → ((k : ℕ) → ev.allfds k ≡ true → Says ev k (text k))
    → length (ready_from ev.allfds n i) ≤ m
    → serve_ready ev n i (pos m) fds
      ≡ some (record {
        readfds = fds;
        outputs = map (λ k. write k (text k)) (ready_from ev.allfds n i);
      })
unfolding ready_from serve_ready
serve_ready_echoes ev text zero i m fds says enough = refl
serve_ready_echoes ev text (suc n) i m fds says enough =
    let answers : List ℕ → Option Served =
      λ fds_left. some (record { readfds = fds; outputs = map (λ k. write k (text k)) fds_left }) in
    elim (Bool-cases (ev.allfds i)) [
      | inr idle ↦
          serve_ready-skip ev n i (pos m) fds idle
          ∙ serve_ready_echoes ev text n (i + 1) m fds says (ground arith)
          ∙ ap answers (sym (ready_from-skip ev.allfds n i idle))
      | inl ready ↦
          let size : length (i ∷ ready_from ev.allfds n (i + 1)) ≤ m = ground arith in
          let e : m ≡ suc (m - 1) = omega (arith, size) in
          ap (λ k. serve_ready ev (suc n) i (pos k) fds) e
          ∙ serve_ready-text ev n i (m - 1) fds (text i) ready (says i ready)
          ∙ ap (then_output (write i (text i)))
              (serve_ready_echoes ev text n (i + 1) (m - 1) fds says (omega (arith, size)))
          ∙ ap answers (sym (ready_from-cons ev.allfds n i ready))
    ]

-- In a round in which the listening socket is not ready, let `select` report at least as many
-- descriptors as are ready up to the bound of the loop, and let each ready one have sent text. Then
-- the round overruns nothing, keeps what is watched, and writes to each ready descriptor up to the
-- bound, in order, the text that it sent, and nothing else. So `fd_num <- 0` ends no such loop early.
pub select_round_echoes :
    (listen_fd m : ℕ) (s : Server) (ev : Events) (text : ℕ → Bytes)
    → ev.allfds listen_fd ≡ false
    → ev.fd_num ≡ pos m
    → length (ready_from ev.allfds (s.maxfd + 1) 0) ≤ m
    → ((k : ℕ) → ev.allfds k ≡ true → Says ev k (text k))
    → select_round listen_fd s ev
      ≡ some (record {
        server = s;
        outputs = map (λ k. write k (text k)) (ready_from ev.allfds (s.maxfd + 1) 0);
      })
unfolding select_round
select_round_echoes listen_fd m s ev text idle count enough says =
    let served = serve_ready_echoes ev text (s.maxfd + 1) 0 m s.readfds says enough in
    let turn : select_round listen_fd s ev
        ≡ turn_of s (serve_ready ev (s.maxfd + 1) 0 ev.fd_num s.readfds) =
      ground arith in
    turn
    ∙ ap (λ z. turn_of s (serve_ready ev (s.maxfd + 1) 0 z s.readfds)) count
    ∙ ap (turn_of s) served
