-- ===== src/Connection/Send.antt =====
-- `sendCborBundle` of dtnex.c. What the calls of ION answer is given, and the calls that are made
-- are recorded in their order.
use dtnex_redesign.Base.{
  ℕ, ◌≡◌, ◌≢◌, ◌↔◌, Bool, true, false, not, Option, none, some, List, [], ◌∷◌, Bytes, length, ◌==◌,
  arith, if◌then◌else◌, ◌>>=◌,
}
use dtnex_redesign.Base.Int.{ℤ, pos, negsuc, ltb_ℤ, leb_ℤ}

-- `zco` is whether `ionCreateZco` gives an object.
pub record SendAnswers : Type 0 where
  pub begin_xn : ℤ
  pub extent : Bool
  pub end_xn : ℤ
  pub zco : Bool
  pub bp_send : ℤ

pub data SendCall : Type 0 where
  sdr_begin_xn : ℤ → SendCall
  sdr_malloc : ℕ → Bool → SendCall
  sdr_write : Bytes → SendCall
  sdr_end_xn : ℤ → SendCall
  sdr_cancel_xn : SendCall
  ion_create_zco : ℕ → Bool → SendCall
  bp_send : Bytes → ℤ → ℤ → SendCall

-- The result, and the calls.
unfoldable pub send_cbor_bundle : SendAnswers → Bytes → Bytes → ℤ → ℤ × List SendCall
send_cbor_bundle a dest_eid cbor_data ttl =
    let size = length cbor_data in
    let begun : SendCall = SendCall.sdr_begin_xn a.begin_xn in
    let malloced : SendCall = SendCall.sdr_malloc size a.extent in
    let written : SendCall = SendCall.sdr_write cbor_data in
    let ended : SendCall = SendCall.sdr_end_xn a.end_xn in
    let created : SendCall = SendCall.ion_create_zco size a.zco in
    let sent : SendCall = SendCall.bp_send dest_eid ttl a.bp_send in
    if length dest_eid == 0
    then (negsuc 0, [])
    else if ltb_ℤ a.begin_xn (pos 0)
    then (negsuc 0, begun ∷ [])
    else if not a.extent
    then (negsuc 0, begun ∷ malloced ∷ SendCall.sdr_cancel_xn ∷ [])
    else if ltb_ℤ a.end_xn (pos 0)
    then (negsuc 0, begun ∷ malloced ∷ written ∷ ended ∷ [])
    else if not a.zco
    then (negsuc 0, begun ∷ malloced ∷ written ∷ ended ∷ created ∷ [])
    else if leb_ℤ a.bp_send (pos 0)
    then (negsuc 0, begun ∷ malloced ∷ written ∷ ended ∷ created ∷ sent ∷ [])
    else (pos size, begun ∷ malloced ∷ written ∷ ended ∷ created ∷ sent ∷ [])

-- The data of a bundle on its way: in a transaction with an extent of some size, stored, in a
-- zero-copy object, and handed over.
pub data Sending : Type 0 where
  idle in_transaction : Sending
  allocated : ℕ → Sending
  filled stored wrapped : Bytes → Sending
  handed_over : Bytes → Bytes → ℤ → Sending

-- What ION lets a sender do: `none` is a call out of place.
abbrev send_step : SendCall → Sending → Option Sending
send_step (SendCall.sdr_begin_xn rc) Sending.idle =
    some (if ltb_ℤ (pos 0) rc then Sending.in_transaction else Sending.idle)
send_step (SendCall.sdr_malloc size ok) Sending.in_transaction =
    some (if ok then Sending.allocated size else Sending.in_transaction)
send_step (SendCall.sdr_write bytes) (Sending.allocated size) =
    if length bytes == size then some (Sending.filled bytes) else none
send_step (SendCall.sdr_end_xn rc) (Sending.filled bytes) =
    some (if ltb_ℤ rc (pos 0) then Sending.idle else Sending.stored bytes)
send_step SendCall.sdr_cancel_xn Sending.in_transaction = some Sending.idle
send_step (SendCall.ion_create_zco size ok) (Sending.stored bytes) =
    if length bytes == size
    then some (if ok then Sending.wrapped bytes else Sending.stored bytes)
    else none
send_step (SendCall.bp_send dest_eid ttl rc) (Sending.wrapped bytes) =
    some
      (if leb_ℤ rc (pos 0) then Sending.wrapped bytes else Sending.handed_over dest_eid bytes ttl)
send_step _ _ = none

abbrev send_run : List SendCall → Sending → Option Sending
send_run [] s = some s
send_run (call ∷ calls) s = send_step call s >>= send_run calls

-- No transaction is open.
abbrev pub is_outside : Sending → Bool
is_outside Sending.in_transaction = false
is_outside (Sending.allocated size) = false
is_outside (Sending.filled bytes) = false
is_outside _ = true

-- Where the calls of a sender lead, from rest.
abbrev pub reached : ℤ × List SendCall → Option Sending
reached outcome = send_run outcome.1 Sending.idle

send_cbor_bundle-is_outside :
    (a : SendAnswers) (dest_eid cbor_data : Bytes) (ttl : ℤ)
    → a.begin_xn ≢ pos 0
    → (reached (send_cbor_bundle a dest_eid cbor_data ttl) >>= λ s. some (is_outside s)) ≡ some true
unfolding send_cbor_bundle
send_cbor_bundle-is_outside a dest_eid cbor_data ttl h = ground arith

send_cbor_bundle_iff :
    (a : SendAnswers) (dest_eid cbor_data : Bytes) (ttl : ℤ)
    → a.begin_xn ≢ pos 0
    → ((send_cbor_bundle a dest_eid cbor_data ttl).0 ≡ pos (length cbor_data)) ↔ (
        reached (send_cbor_bundle a dest_eid cbor_data ttl)
        ≡ some (Sending.handed_over dest_eid cbor_data ttl))
unfolding send_cbor_bundle
send_cbor_bundle_iff a dest_eid cbor_data ttl h = ground arith

-- Whatever ION answers, the calls keep its order and close the transaction that they open, on each
-- error path too; and the result is the size of the data exactly if ION has been handed the whole
-- bundle, with its data, its destination and its lifetime; if `sdr_begin_xn` does not give 0.
pub send_cbor_bundle-handed_over :
    (a : SendAnswers) (dest_eid cbor_data : Bytes) (ttl : ℤ)
    → a.begin_xn ≢ pos 0
    → ((reached (send_cbor_bundle a dest_eid cbor_data ttl) >>= λ s. some (is_outside s))
        ≡ some true)
      × (((send_cbor_bundle a dest_eid cbor_data ttl).0 ≡ pos (length cbor_data)) ↔ (
          reached (send_cbor_bundle a dest_eid cbor_data ttl)
          ≡ some (Sending.handed_over dest_eid cbor_data ttl)))
send_cbor_bundle-handed_over a dest_eid cbor_data ttl h = (
  send_cbor_bundle-is_outside a dest_eid cbor_data ttl h,
  send_cbor_bundle_iff a dest_eid cbor_data ttl h,
)
