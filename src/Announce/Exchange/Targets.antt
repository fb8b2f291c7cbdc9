-- ===== src/Announce/Exchange/Targets.antt =====
-- Who is sent how many announcements, and what they hold.
use dtnex_redesign.Base.{
  ℕ, suc, ◌+◌, ◌*◌, ◌≡◌, ◌<◌, ◌==◌, ==_iff, List, [], ◌∷◌, ◌++◌, Bytes, length, arith,
  if◌then◌else◌, Bool-cases, inl, inr,
}
use dtnex_redesign.Types.{DtnexConfig, Plan, Bundle}
use dtnex_redesign.Node.Flood.{bundles_to, plans_to}
use dtnex_redesign.Announce.Exchange.{send_records, send_all}

pub bundles_to-append :
    (n : ℕ) (xs ys : List Bundle) → bundles_to n (xs ++ ys) ≡ bundles_to n xs + bundles_to n ys
unfolding bundles_to
bundles_to-append n [] ys = ground arith
bundles_to-append n (b ∷ xs) ys = ground (arith, bundles_to-append n xs ys)

one_more : (a b : ℕ) → suc a * b ≡ b + a * b
one_more a b = omega arith

module _ {D : Type 0} (config : DtnexConfig D) {R : Type 0} (encode : ℕ → R → Bytes) where
  module _ (written : (k : ℕ) (r : R) → 0 < length (encode k r)) where
    send_records-count :
        (neighbor n k : ℕ) (records : List R)
        → bundles_to n (send_records config encode neighbor k records)
          ≡ (if neighbor == n then length records else 0)
    unfolding send_records bundles_to
    send_records-count neighbor n k [] = ground arith
    send_records-count neighbor n k (r ∷ records) =
        ground (arith, written k r, send_records-count neighbor n (suc k) records)

    -- Every neighbour is sent every record once for each of its plans, and the node itself none.
    pub send_all-targets :
        (n k : ℕ) (records : List R) (plans : List Plan)
        → bundles_to n (send_all config encode k records plans)
          ≡ (if n == config.node_id then 0 else plans_to n plans * length records)
    unfolding send_all bundles_to plans_to
    send_all-targets n k records [] = ground arith
    send_all-targets n k records (p ∷ plans) =
        let mine =
          bundles_to-append n (send_records config encode p.plan_id k records)
            (send_all config encode (k + length records) records plans) in
        elim (Bool-cases (p.plan_id == n)) [
          | inl here ↦
              let same : p.plan_id ≡ n = ground (arith, ==_iff p.plan_id n) in
              ground (
                arith,
                same,
                mine,
                send_records-count p.plan_id n k records,
                send_all-targets n k records plans,
                send_all-targets n (k + length records) records plans,
                one_more (plans_to n plans) (length records),
              )
          | inr there ↦ ground (
            arith,
            there,
            mine,
            send_records-count p.plan_id n k records,
            send_all-targets n k records plans,
            send_all-targets n (k + length records) records plans,
          )
        ]
