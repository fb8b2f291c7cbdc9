-- ===== src/Announce/Exchange/Own.antt =====
-- The snapshot of contacts holds only contacts from the local node: the invariant that the comment
-- on `MY_CONTACTS_CACHE_TTL` states, on which its correctness rests.
use dtnex_redesign.Base.{
  ℕ, zero, suc, ◌≡◌, ◌≢◌, subst, ◌&&◌, Option, some, List, [], ◌∷◌, All, arith, Bool-cases,
  Option-cases, inl, inr, ltb, ◌-◌,
}
use dtnex_redesign.Base.Int.{ℤ, pos}
use dtnex_redesign.Types.{DtnexConfig, ContactRecord, Plan}
use dtnex_redesign.Cbor.Library.{CborLib}
use dtnex_redesign.Hmac.{HmacSha256}
use dtnex_redesign.Ion.{IonView, Float, is_reachable}
use dtnex_redesign.Ion.Contacts.{own_contacts, ionc_get_own_contacts}
use dtnex_redesign.Ion.Contacts.Announced.{IsOwn, own_contacts-IsOwn}
use dtnex_redesign.Announce.Snapshot.{my_contacts_cache_ttl, Snapshot, refresh, refresh_my_contacts}
use dtnex_redesign.Announce.Exchange.{Announcer, Inputs, ionc_max_records, exchange_with_neighbors}

-- From the node, towards another one.
abbrev pub IsMine : ℕ → ContactRecord → Type 0
IsMine node c = (c.from_node ≡ node) × (c.to_node ≢ node)

own-IsMine :
    {F : Type 0} (float : Float F) (node : ℕ) (now : ℤ) (cs : List ContactRecord)
    → All (IsOwn float node now) cs
    → All (IsMine node) cs
own-IsMine float node now [] h = tt
own-IsMine float node now (c ∷ cs) h = ((h.0.0, h.0.1), own-IsMine float node now cs h.1)

read-IsMine :
    {F : Type 0} (float : Float F) (node : ℕ) (now : ℤ) (max : ℕ) (v : IonView F)
    (cs : List ContactRecord)
    → ionc_get_own_contacts float node now max v ≡ some cs
    → All (IsMine node) cs
unfolding ionc_get_own_contacts is_reachable
read-IsMine float node now zero v cs h = cc
read-IsMine float node now (suc max) v cs h = elim (Option-cases v.contact_index) [
  | inl absent ↦ absurd (ground (arith, absent))
  | inr (index, present) ↦
      let same : own_contacts float node now (suc max) index ≡ cs = ground (arith, present) in
      subst (All (IsMine node)) same (
        own-IsMine float node now (own_contacts float node now (suc max) index)
          (own_contacts-IsOwn float node now (suc max) index).0)
]

refresh-IsMine :
    (node now : ℕ) (reading : Option (List ContactRecord)) (snapshot : Snapshot ContactRecord)
    → ((cs : List ContactRecord) → reading ≡ some cs → All (IsMine node) cs)
    → All (IsMine node) snapshot.records
    → All (IsMine node) (refresh_my_contacts now reading snapshot).1.records
unfolding refresh_my_contacts refresh
refresh-IsMine node now reading snapshot fresh_ok h =
    elim (Bool-cases
      (ltb 0 snapshot.updated && ltb (now - snapshot.updated) my_contacts_cache_ttl)) [
        | inl recent ↦ rw (refresh_my_contacts, refresh, recent) h
        | inr due ↦ elim (Option-cases reading) [
          | inl failed ↦ rw (refresh_my_contacts, refresh, due, failed) h
          | inr (fresh, read) ↦ rw (refresh_my_contacts, refresh, due, read) (fresh_ok fresh read)
        ]
      ]

-- Whatever ION shows, an exchange leaves a snapshot of the node's own contacts so.
pub exchange_with_neighbors-IsMine :
    {D F : Type 0} (lib : CborLib) (hmac : HmacSha256) (float : Float F) (scale_gps : D → ℤ)
    (config : DtnexConfig D) (i : Inputs) (v : IonView F) (plans : List Plan) (a : Announcer)
    → All (IsMine config.node_id) a.my_contacts.records
    → All
        (IsMine config.node_id)
        (exchange_with_neighbors lib hmac float scale_gps config i v plans a).1.my_contacts.records
unfolding exchange_with_neighbors
exchange_with_neighbors-IsMine lib hmac float scale_gps config i v plans a h =
    let reading =
      ionc_get_own_contacts float config.node_id (pos i.contacts_time) ionc_max_records v in
    let kept =
      refresh-IsMine config.node_id i.contacts_time reading a.my_contacts
        (λ cs read.
          read-IsMine float config.node_id (pos i.contacts_time) ionc_max_records v cs read)
        h in
    ground (arith, kept)
