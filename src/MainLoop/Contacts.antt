-- ===== src/MainLoop/Contacts.antt =====
-- `getContacts` of dtnex.c, and the round of an announcement that comes before it.
use dtnex_redesign.Base.{not, List, ◌++◌, if◌then◌else◌}
use dtnex_redesign.Base.Int.{ℤ, pos, ltb_ℤ, eqb_ℤ}
use dtnex_redesign.Types.{Plan}
use dtnex_redesign.Cbor.Library.{CborLib}
use dtnex_redesign.Hmac.{HmacSha256}
use dtnex_redesign.Ion.{IonView, Float}
use dtnex_redesign.Ion.Status.{ionc_print_contact_table, ionc_check_alive}
use dtnex_redesign.Announce.Exchange.{Inputs, exchange_with_neighbors}
use dtnex_redesign.MainLoop.{MainLoop, restart_dtnex, draw}

-- What the calls of a round see: the result of `getplanlist`, and ION in `exchangeWithNeighbors`,
-- in the two tests of `getContacts`.
pub record Round (F : Type 0) : Type 0 where
  pub plans : List Plan
  pub inputs : Inputs
  pub exchange_view : IonView F
  pub table_view : IonView F
  pub alive_view : IonView F

module _ {D F : Type 0} where
  unfoldable pub get_contacts : Round F → MainLoop D → MainLoop D
  get_contacts r l =
      if ltb_ℤ (ionc_print_contact_table r.table_view) (pos 0)
      then restart_dtnex l
      else if not (eqb_ℤ (ionc_check_alive l.config.node_id r.alive_view) (pos 1))
      then restart_dtnex l
      else draw l

  module _ (lib : CborLib) (hmac : HmacSha256) (float : Float F) (scale_gps : D → ℤ) where
    unfoldable pub exchange : Round F → MainLoop D → MainLoop D
    exchange r l =
        let e =
          exchange_with_neighbors lib hmac float scale_gps l.config r.inputs r.exchange_view r.plans
            l.announcer in
        record l { announcer = e.1; sent = l.sent ++ e.0 }

    -- `exchangeWithNeighbors`, then `getContacts`.
    unfoldable pub announce : Round F → MainLoop D → MainLoop D
    unfolding exchange get_contacts
    announce r l = get_contacts r (exchange r l)
