-- ===== src/EpollChat/Overflow.antt =====
-- What an event of the listening socket does to the epoll server.
use network_ex.Common.{ℕ, ◌≡◌, refl, Option, none, some, ◌++◌, length-append, arith}
use network_ex.Common.Bytes.{codes}
use network_ex.Common.Decimal.{decimal}
use network_ex.EpollChat.Server.{State, data_fd, Event, user_name, add_user, step}

add_user-none : (s : State) (accepted memory : Option ℕ) → add_user s accepted memory ≡ none
unfolding add_user user_name
add_user-none s none memory = refl
add_user-none s (some clientfd) none = refl
add_user-none s (some clientfd) (some p) = ground (
  arith,
  length-append (codes "user(") (decimal clientfd ++ codes ")"),
  length-append (decimal clientfd) (codes ")"),
)

-- Whatever `accept` and `malloc` answer, and whatever the table and the heap hold, an event of the
-- listening socket is undefined: `malloc` is asked for the 8 bytes of a pointer, and the structure with
-- its name is written past them for every descriptor.
pub listening_overruns :
    (listenfd : ℕ) (s : State) (ev : Event) → data_fd ev.ptr ≡ listenfd → step listenfd s ev ≡ none
unfolding step
listening_overruns listenfd s ev listening =
    ground (arith, listening, add_user-none s ev.accepted ev.malloc)
