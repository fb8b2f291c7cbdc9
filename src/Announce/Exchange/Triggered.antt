-- ===== src/Announce/Exchange/Triggered.antt =====
-- A change in ION's contact plan, or in the neighbours, is announced at once.
use dtnex_redesign.Base.{
  ℕ, suc, ◌+◌, ◌*◌, ◌≡◌, ◌≢◌, ◌<◌, ◌==◌, true, ◌||◌, ◌⊎◌, inl, inr, subst, List, [], ◌∷◌, ◌++◌,
  Bytes, length, arith, if◌then◌else◌, Bool-cases,
}
use dtnex_redesign.Base.Int.{ℤ, pos, ◌≤ℤ◌, ◌-ℤ◌}
use dtnex_redesign.Types.{DtnexConfig, ContactRecord, RangeRecord, Plan, Bundle}
use dtnex_redesign.Cbor.Format.{head}
use dtnex_redesign.Cbor.Library.{CborLib, IsCborEncoder}
use dtnex_redesign.Hmac.{HmacSha256}
use dtnex_redesign.Message.{
  write_cbor_envelope, append_cbor_hmac, encode_cbor_contact_message, encode_cbor_range_message,
  encode_cbor_metadata_message,
}
use dtnex_redesign.Ion.{IonView, Float}
use dtnex_redesign.Ion.Contacts.{ionc_get_own_contacts}
use dtnex_redesign.Ion.Ranges.{ionc_get_own_ranges}
use dtnex_redesign.Node.Flood.{bundles_to, plans_to}
use dtnex_redesign.Announce.Snapshot.{refresh_my_contacts, refresh_my_ranges}
use dtnex_redesign.Announce.Snapshot.Laws.{refresh_my_contacts_iff, refresh_my_ranges_iff}
use dtnex_redesign.Announce.Exchange.{
  Announcer, Inputs, ionc_max_records, is_known, all_known, plan_list_changed, announced_metadata,
  announcements, is_due, exchange_with_neighbors,
}
use dtnex_redesign.Announce.Exchange.Targets.{bundles_to-append, send_all-targets}

-- How often a number stands in a list.
unfoldable pub count : ℕ → List ℕ → ℕ
count n [] = 0
count n (x ∷ xs) = let rest = count n xs in if x == n then suc rest else rest

is_known-count : (n : ℕ) (last : List ℕ) → is_known n last ≡ true → count n last ≢ 0
unfolding is_known count
is_known-count n [] h = cc
is_known-count n (x ∷ last) h = ground (arith, is_known-count n last)

all_known-count :
    (plans : List Plan) (last : List ℕ) (n : ℕ)
    → all_known plans last ≡ true
    → 0 < plans_to n plans
    → count n last ≢ 0
unfolding all_known plans_to
all_known-count [] last n h k = absurd (omega arith)
all_known-count (p ∷ plans) last n h k = elim (Bool-cases (p.plan_id == n)) [
  | inl here ↦
      let known : is_known p.plan_id last ≡ true = ground arith in
      let same : p.plan_id ≡ n = ground arith in
      subst (λ m. count m last ≢ 0) same (is_known-count p.plan_id last known)
  | inr there ↦ all_known-count plans last n (ground arith) (ground (arith, there))
]

-- Another number of plans, or a plan of a node that had none, is noticed.
plan_list_changed_lem :
    (plans : List Plan) (last : List ℕ)
    → (length plans ≢ length last) ⊎ ((n : ℕ) × (0 < plans_to n plans) × (count n last ≡ 0))
    → plan_list_changed plans last ≡ true
unfolding plan_list_changed
plan_list_changed_lem plans last (inl size) = ground arith
plan_list_changed_lem plans last (inr (n, here, absent)) =
    elim (Bool-cases (all_known plans last)) [
      | inl known ↦ absurd (all_known-count plans last n known here absent)
      | inr fresh ↦ ground (arith, fresh)
    ]

module _ {D F : Type 0} (lib : CborLib) (enc : IsCborEncoder lib) (hmac : HmacSha256)
    (float : Float F) (scale_gps : D → ℤ) (config : DtnexConfig D) where
  sealed_bytes :
      (type : ℕ) (timestamp expire_time : ℤ) (origin from : ℕ) (nonce payload : Bytes)
      → 0
        < length (
            append_cbor_hmac lib hmac config
              (write_cbor_envelope lib type timestamp expire_time origin from nonce ++ payload))
  unfolding append_cbor_hmac write_cbor_envelope head
  sealed_bytes type timestamp expire_time origin from nonce payload =
      rw (enc.encode_array_open_lem 9 (omega arith)) (ground arith)

  -- The number of bundles to a node, of the three kinds together.
  announcements-targets :
      (i : Inputs) (contacts : List ContactRecord) (ranges : List RangeRecord) (plans : List Plan)
      (n : ℕ)
      → bundles_to n (announcements lib hmac float scale_gps config i contacts ranges plans) ≡ (
          if n == config.node_id
          then 0
          else plans_to n plans * length contacts
            + (plans_to n plans * length ranges
                + plans_to n plans * length (announced_metadata scale_gps config)))
  unfolding announcements encode_cbor_contact_message encode_cbor_range_message
      encode_cbor_metadata_message
  announcements-targets i contacts ranges plans n =
      rw
        (
          bundles_to-append,
          bundles_to-append,
          send_all-targets config _ (λ k r. sealed_bytes _ _ _ _ _ _ _) n 0 contacts plans,
          send_all-targets config _ (λ k r. sealed_bytes _ _ _ _ _ _ _) n 0 ranges plans,
          send_all-targets config _ (λ k r. sealed_bytes _ _ _ _ _ _ _) n 0
              (announced_metadata scale_gps config) plans,
        )
        (ground arith)

  abbrev run : Inputs → IonView F → List Plan → Announcer → List Bundle × Announcer
  run = exchange_with_neighbors lib hmac float scale_gps config

  -- What makes an exchange happen: there was none before or the interval has passed since; the
  -- number of plans is another, or one of them is of a node that had none; or one of the two snapshots
  -- is not what it was.
  abbrev pub IsTriggered : Inputs → List Plan → Announcer → Announcer → Type 0
  IsTriggered i plans before after =
      (((before.last_exchange_time ≡ 0)
          ⊎ (config.update_interval ≤ℤ (pos i.current_time -ℤ pos before.last_exchange_time)))
        ⊎ ((length plans ≢ length before.last_plan_list)
            ⊎ ((n : ℕ) × (0 < plans_to n plans) × (count n before.last_plan_list ≡ 0))))
      ⊎ (((after.my_contacts.records ≢ before.my_contacts.records)
          ⊎ (after.my_ranges.records ≢ before.my_ranges.records)))

  due_lem :
      (now last : ℕ)
      → (last ≡ 0) ⊎ (config.update_interval ≤ℤ (pos now -ℤ pos last))
      → is_due config now last ≡ true
  unfolding is_due
  due_lem now last h = ground arith

  -- The same by the tests of the code.
  abbrev Fires : Inputs → List Plan → Announcer → Announcer → Type 0
  Fires i plans before after =
      (is_due config i.current_time before.last_exchange_time ≡ true)
      ⊎ ((plan_list_changed plans before.last_plan_list ≡ true)
          ⊎ ((after.my_contacts.records ≢ before.my_contacts.records)
              ⊎ (after.my_ranges.records ≢ before.my_ranges.records)))

  IsTriggered-Fires :
      (i : Inputs) (plans : List Plan) (before after : Announcer)
      → IsTriggered i plans before after
      → Fires i plans before after
  IsTriggered-Fires i plans before after (inl (inl due)) =
      inl (due_lem i.current_time before.last_exchange_time due)
  IsTriggered-Fires i plans before after (inl (inr others)) =
      inr (inl (plan_list_changed_lem plans before.last_plan_list others))
  IsTriggered-Fires i plans before after (inr changed) = inr (inr changed)

  -- In an exchange with any such trigger, every neighbour is sent one bundle for each contact, each
  -- range and the metadata of the new snapshots, once for each of its plans, and the node itself
  -- none; if cbor.h encodes as documented.
  pub exchange_with_neighbors-triggered :
      (i : Inputs) (v : IonView F) (plans : List Plan) (a : Announcer)
      → IsTriggered i plans a (run i v plans a).1
      → (n : ℕ)
      → bundles_to n (run i v plans a).0 ≡ (
          if n == config.node_id
          then 0
          else plans_to n plans
              * length
                  (exchange_with_neighbors lib hmac float scale_gps config i v plans
                    a).1.my_contacts.records
            + (plans_to n plans
                  * length
                      (exchange_with_neighbors lib hmac float scale_gps config i v plans
                        a).1.my_ranges.records
                + plans_to n plans * length (announced_metadata scale_gps config)))
  unfolding exchange_with_neighbors
  exchange_with_neighbors-triggered i v plans a triggered n =
      let contacts =
        refresh_my_contacts i.contacts_time
          (ionc_get_own_contacts float config.node_id (pos i.contacts_time) ionc_max_records v)
          a.my_contacts in
      let ranges =
        refresh_my_ranges i.ranges_time
          (ionc_get_own_ranges config.node_id (pos i.ranges_time) ionc_max_records v) a.my_ranges in
      let same_contacts =
        refresh_my_contacts_iff i.contacts_time
          (ionc_get_own_contacts float config.node_id (pos i.contacts_time) ionc_max_records v)
          a.my_contacts in
      let same_ranges =
        refresh_my_ranges_iff i.ranges_time
          (ionc_get_own_ranges config.node_id (pos i.ranges_time) ionc_max_records v) a.my_ranges in
      elim (Bool-cases (
        is_due config i.current_time a.last_exchange_time
        || (plan_list_changed plans a.last_plan_list || (contacts.0 || ranges.0)))) [
          | inl go ↦
              rw (exchange_with_neighbors, go)
                (announcements-targets i contacts.1.records ranges.1.records plans n)
          | inr quiet ↦
              let fires : Fires i plans a (run i v plans a).1 =
                IsTriggered-Fires i plans a (run i v plans a).1 triggered in
              absurd (ground (arith, fires, same_contacts.0, same_ranges.0))
        ]
