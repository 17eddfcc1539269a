-- ===== src/SelectDemo/Answered.antt =====
-- What the prompt prints.
use network_ex.Common.{
  ◌<◌, ◌≡◌, refl, ap, ◌∙◌, Option, none, some, List, [], ◌∷◌, Bool, true, false, Bool-cases, inl,
  inr, All, map, length, if◌then◌else◌,
}
use network_ex.Common.Bytes.{Bytes, NulFree, c_string, c_string-filled, filled}
use network_ex.SelectDemo.Prompt.{
  max_line, Event, timed_out, reads, is_quit, rbuf_of, time_out_text, message_text, then_printed,
  prompt_loop,
}

-- The block of a `read`, which has at most 79 bytes.
abbrev pub block_of : Option Bytes → Bytes
block_of none = []
block_of (some block) = block

abbrev pub IsTyped : Event → Type 0
IsTyped timed_out = Unit {0}
IsTyped (reads block) = NulFree (block_of block) × (length (block_of block) < max_line)

-- The events before the first block that begins with "quit" and a newline, and whether there is one.
abbrev pub is_last : Event → Bool
is_last timed_out = false
is_last (reads block) = is_quit (rbuf_of block)

abbrev pub before_quit : List Event → List Event
before_quit [] = []
before_quit (e ∷ events) = let more = before_quit events in if is_last e then [] else e ∷ more

abbrev pub has_quit : List Event → Bool
has_quit [] = false
has_quit (e ∷ events) = let more = has_quit events in if is_last e then true else more

abbrev pub answer_to : Event → Bytes
answer_to timed_out = time_out_text
answer_to (reads block) = message_text (block_of block)

rbuf_of-filled : (block : Option Bytes) → rbuf_of block ≡ filled max_line (block_of block)
rbuf_of-filled none = refl
rbuf_of-filled (some block) = refl

-- Time-outs and reads, of at most 79 bytes and without NUL, in any order: whatever they are, the prompt
-- overruns nothing, answers each of them before the first "quit" with the message of a time-out or with
-- what was read, in order, and returns exactly if there is one.
pub prompt_loop_lem :
    (events : List Event)
    → All IsTyped events
    → prompt_loop events
      ≡ some (record { printed = map answer_to (before_quit events); returned = has_quit events })
unfolding prompt_loop
prompt_loop_lem [] h = refl
prompt_loop_lem (timed_out ∷ rest) h =
    ap (then_printed (some time_out_text)) (prompt_loop_lem rest h.1)
prompt_loop_lem (reads block ∷ rest) h =
    let text : c_string (rbuf_of block) ≡ some (block_of block) =
      ap c_string (rbuf_of-filled block) ∙ c_string-filled max_line (block_of block) h.0.0 h.0.1 in
    elim (Bool-cases (is_quit (rbuf_of block))) [
      | inl quits ↦ rw quits refl
      | inr other ↦ rw (other, text, prompt_loop_lem rest h.1) refl
    ]
