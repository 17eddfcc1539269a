-- ===== src/Echo/Watched.antt =====
-- What the rounds of the `select` server keep watching.
use mathlib.Core.Path.{subst}
use network_ex.Common.{
  ℕ, zero, suc, ◌+◌, ◌≤◌, ◌<◌, ◌≡◌, refl, ◌∙◌, ◌⊎◌, inl, inr, Option, none, some, List, [], ◌∷◌,
  true, false, ltb, if◌then◌else◌, arith, Option-cases, Bool-cases,
}
use network_ex.Common.Bytes.{c_string, filled}
use network_ex.Common.Int.{ℤ}
use network_ex.Echo.NonBlocking.{Output, write, close}
use network_ex.Echo.Select.{
  line_size, set_size, FdSet, fd_set_to, Server, start, Events, Served, decrement, below_zero,
  then_output, is_quit, serve_ready, Turn, select_round, select_run,
}

-- No entry is set, and that of a descriptor that is not ready stays.
abbrev Keeps : Events → FdSet → FdSet → Type 0
Keeps ev fds fds' =
    (j : ℕ) → (fds' j ≡ true → fds j ≡ true) × (ev.allfds j ≡ false → fds' j ≡ fds j)

closed-Keeps :
    (ev : Events) (fds : FdSet) (i : ℕ) → ev.allfds i ≡ true → Keeps ev fds (fd_set_to fds i false)
unfolding fd_set_to
closed-Keeps ev fds i ready j = (λ h. ground arith, λ h. ground arith)

Keeps-trans : (ev : Events) (a b c : FdSet) → Keeps ev a b → Keeps ev b c → Keeps ev a c
Keeps-trans ev a b c ab bc j = (λ h. (ab j).0 ((bc j).0 h), λ h. (bc j).1 h ∙ (ab j).1 h)

then_output-some :
    (o : Output) (x : Option Served) (served : Served)
    → then_output o x ≡ some served
    → (more : Served) × (x ≡ some more) × (more.readfds ≡ served.readfds)
then_output-some o none served h = absurd (ground arith)
then_output-some o (some more) served h = (more, refl, ground arith)

-- What the round of a ready descriptor comes to: the loop ends, or goes on, with the connection
-- closed or not.
abbrev Outcome : Events → ℕ → ℕ → FdSet → Served → Type 0
Outcome ev n i fds served =
    (Unit {0} × (fd_set_to fds i false ≡ served.readfds))
    ⊎ ((Unit {0} × (fds ≡ served.readfds))
        ⊎ (((z : ℤ) × (more : Served) × (serve_ready ev n (i + 1) z (fd_set_to fds i false)
                ≡ some more)
              × (more.readfds ≡ served.readfds))
            ⊎ ((z : ℤ) × (more : Served) × (serve_ready ev n (i + 1) z fds ≡ some more)
                × (more.readfds ≡ served.readfds))))

closing-Outcome :
    (ev : Events) (n i : ℕ) (z : ℤ) (fds : FdSet) (served : Served)
    → (below_zero z ≡ true
        → then_output (close i) (some (record { readfds = fd_set_to fds i false; outputs = [] }))
          ≡ some served)
    → (below_zero z ≡ false
        → then_output (close i) (serve_ready ev n (i + 1) z (fd_set_to fds i false)) ≡ some served)
    → Outcome ev n i fds served
closing-Outcome ev n i z fds served ends goes = elim (Bool-cases (below_zero z)) [
  | inl stop ↦ inl (tt, ground (arith, ends stop))
  | inr go ↦
      let (more, e, same) =
        then_output-some (close i) (serve_ready ev n (i + 1) z (fd_set_to fds i false)) served
          (goes go) in
      inr (inr (inl (z, more, e, same)))
]

serve_ready-ready :
    (ev : Events) (n i : ℕ) (fd_num : ℤ) (fds : FdSet) (served : Served)
    → ev.allfds i ≡ true
    → serve_ready ev (suc n) i fd_num fds ≡ some served
    → Outcome ev n i fds served
unfolding serve_ready
serve_ready-ready ev n i fd_num fds served ready h =
    let z : ℤ = decrement fd_num in
    elim (Option-cases (ev.reads i)) [
      | inl lost ↦ closing-Outcome ev n i z fds served (λ b. ground arith) (λ b. ground arith)
      | inr ([], e) ↦ closing-Outcome ev n i z fds served (λ b. ground arith) (λ b. ground arith)
      | inr (b ∷ bs, e) ↦ elim (Bool-cases (is_quit (filled line_size (b ∷ bs)))) [
        | inl quit ↦ inl (tt, ground arith)
        | inr stays ↦ elim (Option-cases (c_string (filled line_size (b ∷ bs)))) [
          | inl overrun ↦ absurd (ground arith)
          | inr (text, t) ↦ elim (Bool-cases (below_zero z)) [
            | inl stop ↦ inr (inl (tt, ground arith))
            | inr go ↦
                let (more, e, same) =
                  then_output-some (write i text) (serve_ready ev n (i + 1) z fds) served
                    (ground arith) in
                inr (inr (inr (z, more, e, same)))
          ]
        ]
      ]
    ]

serve_ready-Keeps :
    (ev : Events) (n i : ℕ) (fd_num : ℤ) (fds : FdSet) (served : Served)
    → serve_ready ev n i fd_num fds ≡ some served
    → Keeps ev fds served.readfds
unfolding serve_ready
serve_ready-Keeps ev zero i fd_num fds served h = λ j. ground arith
serve_ready-Keeps ev (suc n) i fd_num fds served h = elim (Bool-cases (ev.allfds i)) [
  | inr idle ↦ serve_ready-Keeps ev n (i + 1) fd_num fds served (ground arith)
  | inl ready ↦
      let closed : FdSet = fd_set_to fds i false in
      let kept : Keeps ev fds closed = closed-Keeps ev fds i ready in
      elim (serve_ready-ready ev n i fd_num fds served ready h) [
        | inl (none_read, e) ↦ subst (Keeps ev fds) e kept
        | inr (inl (none_read, e)) ↦ subst (Keeps ev fds) e (λ j. (λ one. one, λ idle. refl))
        | inr (inr (inl (z, more, e, same))) ↦ subst (Keeps ev fds) same (
            Keeps-trans ev fds closed more.readfds kept
              (serve_ready-Keeps ev n (i + 1) z closed more e))
        | inr (inr (inr (z, more, e, same))) ↦
            subst (Keeps ev fds) same (serve_ready-Keeps ev n (i + 1) z fds more e)
      ]
]

-- The listening socket is watched, and everything that is watched is within the bound of the loop.
pub record IsWatching (listen_fd : ℕ) (s : Server) : Type 0 where
  pub listening : s.readfds listen_fd ≡ true
  pub in_set : s.maxfd < set_size
  pub bounded : (i : ℕ) → s.readfds i ≡ true → i ≤ s.maxfd

watch-IsWatching :
    (listen_fd client_fd : ℕ) (s : Server)
    → IsWatching listen_fd s
    → client_fd < set_size
    → IsWatching listen_fd (record {
      readfds = fd_set_to s.readfds client_fd true;
      maxfd = if ltb s.maxfd client_fd then client_fd else s.maxfd;
    })
unfolding fd_set_to
watch-IsWatching listen_fd client_fd s w small = record {
  listening = ground (arith, w.listening);
  in_set = ground (arith, w.in_set);
  bounded = λ i h. ground (arith, w.bounded i);
}

select_round-IsWatching :
    (listen_fd : ℕ) (s : Server) (ev : Events) (turn : Turn)
    → IsWatching listen_fd s
    → select_round listen_fd s ev ≡ some turn
    → IsWatching listen_fd turn.server
unfolding select_round
select_round-IsWatching listen_fd s ev turn w h = elim (Bool-cases (ev.allfds listen_fd)) [
  | inl connection ↦ elim (Option-cases ev.accepted) [
    | inl failed ↦ absurd (ground arith)
    | inr (client_fd, e) ↦
        let same : record {
          readfds = fd_set_to s.readfds client_fd true;
          maxfd = if ltb s.maxfd client_fd then client_fd else s.maxfd;
        }
            ≡ turn.server =
          ground arith in
        subst (IsWatching listen_fd) same (watch-IsWatching listen_fd client_fd s w (ground arith))
  ]
  | inr other ↦ elim (Option-cases (serve_ready ev (s.maxfd + 1) 0 ev.fd_num s.readfds)) [
    | inl overrun ↦ absurd (ground arith)
    | inr (served, e) ↦
        let kept : Keeps ev s.readfds served.readfds =
          serve_ready-Keeps ev (s.maxfd + 1) 0 ev.fd_num s.readfds served e in
        let same : record s { readfds = served.readfds } ≡ turn.server = ground arith in
        subst (IsWatching listen_fd) same (record {
          listening = (kept listen_fd).1 other ∙ w.listening;
          in_set = w.in_set;
          bounded = λ i h. w.bounded i ((kept i).0 h);
        })
  ]
]

select_run-IsWatching :
    (listen_fd : ℕ) (s s' : Server) (events : List Events)
    → IsWatching listen_fd s
    → select_run listen_fd s events ≡ some s'
    → IsWatching listen_fd s'
unfolding select_run
select_run-IsWatching listen_fd s s' [] w h =
    let same : s ≡ s' = ground arith in subst (IsWatching listen_fd) same w
select_run-IsWatching listen_fd s s' (ev ∷ rest) w h =
    elim (Option-cases (select_round listen_fd s ev)) [
      | inl overrun ↦ absurd (ground arith)
      | inr (turn, e) ↦
          select_run-IsWatching listen_fd turn.server s' rest
            (select_round-IsWatching listen_fd s ev turn w e) (ground arith)
    ]

start-IsWatching : (listen_fd : ℕ) → listen_fd < set_size → IsWatching listen_fd (start listen_fd)
unfolding start fd_set_to
start-IsWatching listen_fd small = record {
  listening = ground arith;
  in_set = small;
  bounded = λ i h. ground arith;
}

-- From a listening socket that fits an `fd_set`, after any rounds that overrun nothing, whatever the
-- kernel answers in them: the listening socket is still watched, and everything that is watched is
-- within the bound that `select` and the loop are given, which fits an `fd_set` too.
pub select_run_watches :
    (listen_fd : ℕ) (events : List Events) (s : Server)
    → listen_fd < set_size
    → select_run listen_fd (start listen_fd) events ≡ some s
    → (s.readfds listen_fd ≡ true)
      × (s.maxfd < set_size)
      × ((i : ℕ) → s.readfds i ≡ true → i ≤ s.maxfd)
select_run_watches listen_fd events s small h =
    let w =
      select_run-IsWatching listen_fd (start listen_fd) s events (start-IsWatching listen_fd small)
        h in
    (w.listening, w.in_set, w.bounded)
