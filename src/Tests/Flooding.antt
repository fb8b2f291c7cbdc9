-- ===== src/Tests/Flooding.antt =====
-- A message of node 1 on its way through node 2, and what the next node reads of it.
use dtnex_redesign.Base.{◌≡◌, refl, ◌==◌, List, [], ◌∷◌, length, All, arith, if◌then◌else◌}
use dtnex_redesign.Types.{Plan, Bundle}
use dtnex_redesign.Extract.Texts.{as_sent}
use dtnex_redesign.Decode.{contact, metadata, parse_message}
use dtnex_redesign.Decode.Sent.{expected}
use dtnex_redesign.Node.Forward.{is_skipped, forward_loop, forwarded_contact, forwarded_metadata}
use dtnex_redesign.Node.Flood.{
  bundles_to, plans_to, forward_loop-targets, IsCopy, forward_loop-IsCopy, passed_on,
  parse_message-forwarded_contact, parse_message-forwarded_metadata,
}
use dtnex_redesign.Tests.Library.{lib, enc, dec, hmac, sha}
use dtnex_redesign.Tests.World.{
  config_of, sys, contact_1_3, metadata_1, contact_1_3-IsContactRecord,
}
use dtnex_redesign.Tests.Network.{
  envelope, contact_message, metadata_1-IsPortable, forwarded_metadata-le, envelope-IsEnvelope,
}

abbrev plans : List Plan
plans =
    record { plan_id = 1; timestamp = 1000 }
    ∷ record { plan_id = 3; timestamp = 1000 }
    ∷ record { plan_id = 4; timestamp = 1000 }
    ∷ []

abbrev forwarded : List Bundle
forwarded = forward_loop sys (envelope b'c') contact_message plans

forward_loop-targets_example :
    bundles_to 3 forwarded
    ≡ (if 3 == 1 then 0 else if 3 == 1 then 0 else if 3 == 2 then 0 else plans_to 3 plans)
forward_loop-targets_example = forward_loop-targets sys (envelope b'c') contact_message plans 3

-- Nodes 3 and 4 get a bundle each.
length-forwarded : length forwarded ≡ 2
unfolding forward_loop is_skipped
length-forwarded = refl

forward_loop-IsCopy_example : All (IsCopy sys (envelope b'c') contact_message) forwarded
forward_loop-IsCopy_example = forward_loop-IsCopy sys (envelope b'c') contact_message plans

parse_message-forwarded_contact_example :
    parse_message lib hmac
      (config_of 2).pre_shared_network_key
      []
      1100
      (forwarded_contact sys (envelope b'c') contact_1_3)
    ≡ expected (passed_on sys b'c' (envelope b'c')) [] 1100 (contact contact_1_3)
parse_message-forwarded_contact_example =
    parse_message-forwarded_contact sys enc dec sha (omega arith) (envelope b'c')
      (envelope-IsEnvelope b'c') [] 1100 contact_1_3 contact_1_3-IsContactRecord

parse_message-forwarded_metadata_example :
    parse_message lib hmac
      (config_of 2).pre_shared_network_key
      []
      1100
      (forwarded_metadata sys (envelope b'm') metadata_1)
    ≡ expected (passed_on sys b'm' (envelope b'm')) [] 1100 (metadata (as_sent metadata_1))
parse_message-forwarded_metadata_example =
    parse_message-forwarded_metadata sys enc dec sha (omega arith) (envelope b'm')
      (envelope-IsEnvelope b'm') [] 1100 metadata_1 metadata_1-IsPortable forwarded_metadata-le
