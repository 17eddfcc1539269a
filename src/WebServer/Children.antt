-- ===== src/WebServer/Children.antt =====
-- What the children of the web server answer, over all the rounds of its parent.
use mathlib.Core.Path.{subst}
use network_ex.Common.{
  ℕ, ◌<◌, ◌≡◌, refl, ap, suc, ◌⊎◌, Option, none, some, List, [], ◌∷◌, Bool, true, false, All,
  Option-cases, Bool-cases, inl, inr, length, if◌then◌else◌, arith,
}
use network_ex.Common.Bytes.{Bytes}
use network_ex.Common.Int.{pos, negsuc}
use network_ex.WebServer.Page.{World, max_line, Answer, webserv}
use network_ex.WebServer.Response.{IsFileAsked, IsFramed, webserv-IsFramed}
use network_ex.WebServer.Listener.{Setup, Round, Hosted, rooted, host, server_main}

-- A child overran an array, or wrote nothing and returned -1, or wrote one whole response and returned 1.
abbrev pub IsSound : Option Answer → Type 0
IsSound none = Unit {0}
IsSound (some answer) =
    ((answer.ret ≡ negsuc 0) × (answer.written ≡ []))
    ⊎ ((answer.ret ≡ pos 1) × IsFramed answer.written)

-- `accept` and `fork` have worked in all rounds.
unfoldable pub all_forked : List Round → Bool
all_forked [] = true
all_forked (round ∷ rounds) =
    let more = all_forked rounds in
    elim round.accepted [ none ↦ false | some input ↦ if round.forks then more else false ]

-- The rounds before the first in which one of them fails.
unfoldable pub forked_count : List Round → ℕ
forked_count [] = 0
forked_count (round ∷ rounds) =
    let more = forked_count rounds in
    elim round.accepted [ none ↦ 0 | some input ↦ if round.forks then suc more else 0 ]

-- What the child of a round is asked for, in the directory of `main`.
abbrev pub IsFileRound : Bytes → Round → Type 0
IsFileRound root r =
    (input : Option Bytes) → r.accepted ≡ some input → IsFileAsked (rooted root r.world) input

webserv-IsSound :
    (w : World) (input : Option Bytes) → IsFileAsked w input → IsSound (webserv w input)
webserv-IsSound w input asked = sound (webserv w input) refl
  where
    sound : (answer : Option Answer) → webserv w input ≡ answer → IsSound answer
    sound none h = tt
    sound (some answer) h = webserv-IsFramed w input answer asked h

-- What the theorem below says of the parent.
abbrev IsHosted : List Round → Hosted → Type 0
IsHosted rounds hosted =
    All IsSound hosted.answers
    × (hosted.waits ≡ all_forked rounds)
    × (length hosted.answers ≡ forked_count rounds)

host-IsHosted :
    (root : Bytes) (rounds : List Round)
    → All (IsFileRound root) rounds
    → IsHosted rounds (host root rounds)
unfolding host all_forked forked_count
host-IsHosted root [] asked = (tt, refl, refl)
host-IsHosted root (round ∷ rounds) asked = elim (Option-cases round.accepted) [
  | inl refused ↦ rw refused (tt, refl, refl)
  | inr (input, e) ↦ elim (Bool-cases round.forks) [
    | inl forks ↦
        let (sound, waits, count) = host-IsHosted root rounds asked.1 in
        rw (e, forks)
          (
            (webserv-IsSound (rooted root round.world) input (asked.0 input e), sound),
            waits,
            ap suc count,
          )
    | inr fails ↦ rw (e, fails) (tt, refl, refl)
  ]
]

-- Where, in each round, the path that a GET request names and `access` allows to the child is a file
-- that opens, whose `st_size` is the number of the bytes that are read of it, below 2 ^ 31: if `main`
-- gets to its loop, its directory fits its array; whatever the clients send, every child that overran
-- no array wrote nothing and returned -1, or returned 1 and wrote one response whose Content-Length is
-- the number of the bytes of its body. One child has answered for each round before the first in which
-- `accept` or `fork` failed, and the parent waits for more exactly if none did, whatever became of the
-- children.
pub every_child_framed :
    (root : Bytes) (setup : Setup) (rounds : List Round) (hosted : Hosted)
    → All (IsFileRound root) rounds
    → server_main (root ∷ []) setup rounds ≡ some (some hosted)
    → (length root < max_line)
      × All IsSound hosted.answers
      × (hosted.waits ≡ all_forked rounds)
      × (length hosted.answers ≡ forked_count rounds)
unfolding server_main
every_child_framed root setup rounds hosted asked h =
    let fits : length root < max_line = ground arith in
    let same : host root rounds ≡ hosted = ground arith in
    let (sound, waits, count) = subst (IsHosted rounds) same (host-IsHosted root rounds asked) in
    (fits, sound, waits, count)
