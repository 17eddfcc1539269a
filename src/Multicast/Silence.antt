-- ===== src/Multicast/Silence.antt =====
-- What the multicast chat shows and sends.
use network_ex.Common.{
  ℕ, ◌<◌, ◌≡◌, ◌≢◌, refl, ap, ◌⊎◌, inl, inr, Option, none, some, List, [], ◌∷◌, Bool, true, false,
  concat, length, lt→ltb, if◌then◌else◌, arith,
}
use network_ex.Common.Bytes.{Bytes, c_string}
use network_ex.Multicast.Channel.{
  name_size, Forked, failed, child, parent, Kernel, contains, Heard, then_printed, child_loop,
  parent_loop, Outcome, returns_one, reading, sending, as_child, as_parent, read_fd, forked, set_up,
  multicast_main,
}

-- The bytes that were printed or sent.
abbrev pub bytes_of : Outcome → Bytes
bytes_of returns_one = []
bytes_of (reading h) = concat h.printed
bytes_of (sending sent) = concat sent

child_loop-silent :
    (leaves : Bool) (incoming : List (Option Bytes))
    → (h : Heard) × (child_loop leaves incoming ≡ some h) × (concat h.printed ≡ [])
unfolding child_loop c_string contains
child_loop-silent leaves [] = (_, refl, refl)
child_loop-silent leaves (none ∷ rest) = (_, refl, refl)
child_loop-silent leaves (some (b ∷ bs) ∷ rest) = (_, refl, refl)
child_loop-silent leaves (some [] ∷ rest) =
    let (h, e, silent) = child_loop-silent leaves rest in
    (record h { printed = [] ∷ h.printed }, ap (then_printed []) e, silent)

-- A run comes out and is silent, or it is undefined and the process that sends has read a line.
abbrev pub IsSilent : Kernel → Forked → Option Outcome → Type 0
IsSilent k f o =
    ((o ≡ none) × (f ≡ parent) × (k.typed ≢ []))
    ⊎ ((out : Outcome) × (o ≡ some out) × (bytes_of out ≡ []))

parent_loop-cases :
    (lines : List (Option Bytes))
    → ((parent_loop lines ≡ none) × (lines ≢ [])) ⊎ (parent_loop lines ≡ some [])
unfolding parent_loop
parent_loop-cases [] = inr refl
parent_loop-cases (line ∷ rest) = inl (refl, λ e. grind arith)

forked-silent : (k : Kernel) (fd : ℕ) (f : Forked) → IsSilent k f (forked k fd f)
forked-silent k fd failed = inr (returns_one, refl, refl)
forked-silent k fd child =
    let (h, e, silent) = child_loop-silent (k.leaves fd) (k.receives fd) in
    inr (reading h, ap as_child e, silent)
forked-silent k fd parent = elim (parent_loop-cases k.typed) [
  | inl (undefined, some_line) ↦ inl (ap as_parent undefined, refl, some_line)
  | inr nothing ↦ inr (sending [], ap as_parent nothing, refl)
]

ends : (k : Kernel) → IsSilent k k.forks (some returns_one)
ends k = inr (returns_one, refl, refl)

if-silent :
    (k : Kernel) (b : Bool) (o : Option Outcome)
    → IsSilent k k.forks o
    → IsSilent k k.forks (if b then o else some returns_one)
if-silent k true o h = h
if-silent k false o h = ends k

sends-silent :
    (k : Kernel) (second : Option ℕ)
    → IsSilent k k.forks
        (elim second [ none ↦ some returns_one | some send_fd ↦ forked k 0 k.forks ])
sends-silent k none = ends k
sends-silent k (some send_fd) = forked-silent k 0 k.forks

-- For a name that leaves room for its NUL, whatever the kernel answers and whatever comes on the
-- descriptor that is read: either the run comes out, and no byte of a message is shown or sent, or it
-- is undefined, and then a read of the keyboard has returned to the process that sends.
pub multicast_silent :
    (arg : Bytes) (k : Kernel) → length arg < name_size → IsSilent k k.forks (multicast_main arg k)
unfolding multicast_main
multicast_silent arg k room = rw (lt→ltb _ _ room) (opened k.first_socket)
  where
    opened : (first : Option ℕ) → IsSilent k k.forks (set_up k (read_fd first))
    opened none = ends k
    opened (some fd) =
        if-silent k (k.joins 0) _
          (if-silent k (k.reuses 0) _ (if-silent k (k.binds 0) _ (sends-silent k k.second_socket)))
