-- ===== src/Announce/Snapshot.antt =====
-- `sameContactRecord`, `refreshMyContacts`, `sameRangeRecord` and `refreshMyRanges` of dtnex.c, by
-- one pair of functions over the type of the records.
pub mod Laws
use dtnex_redesign.Base.{
  ℕ, ◌-◌, ltb, ◌==◌, Bool, true, false, not, ◌&&◌, Option, none, some, List, [], ◌∷◌, if◌then◌else◌,
}
use dtnex_redesign.Base.Int.{ℤ, eqb_ℤ}
use dtnex_redesign.Types.{ContactRecord, RangeRecord}

abbrev pub my_contacts_cache_ttl : ℕ
my_contacts_cache_ttl = 60

pub record Snapshot (R : Type 0) : Type 0 where
  pub records : List R
  pub updated : ℕ

unfoldable pub same_contact_record : ContactRecord → ContactRecord → Bool
same_contact_record a b =
    a.region_nbr == b.region_nbr
    && (a.from_node == b.from_node
        && (a.to_node == b.to_node
            && (eqb_ℤ a.from_time b.from_time
                && (eqb_ℤ a.to_time b.to_time
                    && (a.xmit_rate == b.xmit_rate && a.confidence == b.confidence)))))

unfoldable pub same_range_record : RangeRecord → RangeRecord → Bool
same_range_record a b =
    a.from_node == b.from_node
    && (a.to_node == b.to_node
        && (eqb_ℤ a.from_time b.from_time && (eqb_ℤ a.to_time b.to_time && a.owlt == b.owlt)))

module _ {R : Type 0} (same : R → R → Bool) where
  -- The comparison of the counts and the loop over both arrays.
  unfoldable pub differs : List R → List R → Bool
  differs [] [] = false
  differs [] (b ∷ old) = true
  differs (a ∷ fresh) [] = true
  differs (a ∷ fresh) (b ∷ old) = if same a b then differs fresh old else true

  -- The result is the value of `*changed` and the snapshot; `reading` is what
  -- `ionc_get_own_contacts` or `ionc_get_own_ranges` returns when it is called.
  unfoldable pub refresh : ℕ → Option (List R) → Snapshot R → Bool × Snapshot R
  refresh now reading snapshot =
      if ltb 0 snapshot.updated && ltb (now - snapshot.updated) my_contacts_cache_ttl
      then (false, snapshot)
      else elim reading [
        | none ↦ (false, snapshot)
        | some fresh ↦ (differs fresh snapshot.records, record { records = fresh; updated = now })
      ]

unfoldable pub refresh_my_contacts :
    ℕ → Option (List ContactRecord) → Snapshot ContactRecord → Bool × Snapshot ContactRecord
refresh_my_contacts = refresh same_contact_record

unfoldable pub refresh_my_ranges :
    ℕ → Option (List RangeRecord) → Snapshot RangeRecord → Bool × Snapshot RangeRecord
refresh_my_ranges = refresh same_range_record
