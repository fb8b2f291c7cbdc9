-- ===== src/Service/Messages.antt =====
-- What `bp_receive` delivers to the thread of `runBundleReception`, turn by turn: the messages, and what
-- ends the thread.
use dtnex_redesign.Base.{
  ℕ, ◌+◌, ◌≡◌, Bool, true, false, not, ◌||◌, Option, none, some, List, [], ◌∷◌, ◌++◌, Bytes, length,
  ltb, leb, ◌==◌, arith, if◌then◌else◌,
}
use dtnex_redesign.Base.Int.{neg_part}
use dtnex_redesign.Node.{Times}
use dtnex_redesign.Service.{Delivery, buffer_after}
use dtnex_redesign.Service.Reception.{Content, Turn, Reading, read_content}

abbrev pub reading_ends : Reading → Bool
reading_ends Reading.no_transaction = true
reading_ends Reading.unread = false
reading_ends (Reading.content buffer) = false

abbrev pub reading_messages : Times → Reading → List (Times × Bytes)
reading_messages t Reading.no_transaction = []
reading_messages t Reading.unread = []
reading_messages t (Reading.content buffer) = (t, buffer) ∷ []

-- A payload of 1 to 1023 bytes.
abbrev pub is_sized : Content → Bool
is_sized c = if length c.adu == 0 then false else leb (length c.adu) 1023

-- A transaction that does not begin ends the thread: the first one, or for a payload of such a size
-- the second one.
abbrev pub payload_ends : Content → Bool
payload_ends c = if c.length_begun then (if is_sized c then not c.read_begun else false) else true

-- A payload of such a size is a message if both transactions begin, the number of bytes read is not
-- negative, and the second transaction ends well.
abbrev pub payload_messages : Times → Content → List (Times × Bytes)
payload_messages t c =
    if payload_ends c
    then []
    else if not (is_sized c)
    then []
    else if ltb (neg_part c.received + neg_part c.end_xn) 1
    then (t, buffer_after c.received c.adu c.before) ∷ []
    else []

pub payload_ends_lem : (c : Content) → reading_ends (read_content c) ≡ payload_ends c
unfolding read_content
payload_ends_lem c = ground arith

pub payload_messages_lem :
    (t : Times) (c : Content) → reading_messages t (read_content c) ≡ payload_messages t c
unfolding read_content
payload_messages_lem t c = ground arith

-- Whether an answer of `bp_receive` is the last one.
abbrev pub answer_ends : Option (Delivery Content) → Bool
answer_ends none = true
answer_ends (some (Delivery.payload_present c)) = payload_ends c
answer_ends (some Delivery.reception_timed_out) = false
answer_ends (some Delivery.reception_interrupted) = false
answer_ends (some Delivery.endpoint_stopped) = true

-- The message that it brings.
abbrev pub answer_messages : Times → Option (Delivery Content) → List (Times × Bytes)
answer_messages t none = []
answer_messages t (some (Delivery.payload_present c)) = payload_messages t c
answer_messages t (some Delivery.reception_timed_out) = []
answer_messages t (some Delivery.reception_interrupted) = []
answer_messages t (some Delivery.endpoint_stopped) = []

-- The deliveries that it hands over, to be released.
abbrev pub answer_deliveries : Option (Delivery Content) → ℕ
answer_deliveries none = 0
answer_deliveries (some (Delivery.payload_present c)) = 1
answer_deliveries (some Delivery.reception_timed_out) = 1
answer_deliveries (some Delivery.reception_interrupted) = 0
answer_deliveries (some Delivery.endpoint_stopped) = 0

abbrev pub turn_ends : Turn → Bool
turn_ends turn = not turn.go_on || answer_ends turn.answer

abbrev pub any_ends : List Turn → Bool
any_ends [] = false
any_ends (turn ∷ turns) = turn_ends turn || any_ends turns

-- The messages of the turns before the last one, each with its clock.
abbrev pub delivered : List Turn → List (Times × Bytes)
delivered [] = []
delivered (turn ∷ turns) =
    if turn_ends turn then [] else answer_messages turn.times turn.answer ++ delivered turns

abbrev pub deliveries : List Turn → ℕ
deliveries [] = 0
deliveries (turn ∷ turns) =
    if turn_ends turn then 0 else answer_deliveries turn.answer + deliveries turns
