-- ===== src/Outbox/Diagnostics.antt =====
-- The counters of a delivery (memory/worker.py).
use mathlib.Core.Path.{subst}
use bridgesat_agent.Common.{
  ℕ, ◌+◌, ◌≤◌, ◌≡◌, refl, sym, false, String, Option, none, some, List, [], ◌∷◌, length, All,
  Bool-cases, Option-cases, arith, inl, inr, ◌==◌, string_eq,
}
use bridgesat_agent.Outbox.Rows.{Row, Table}
use bridgesat_agent.Outbox.Fencing.{stale_changes_nothing}
use bridgesat_agent.Outbox.Worker.{
  Index, Worker, fail_claim, finish_claim, give_up, settle, deliver_row, deliver_rows,
}
use bridgesat_agent.Outbox.Delivery.{IsReleased, deliver_row-cases}

-- The table and the two counters are the same.
abbrev pub IsUntouched : Worker → Worker → Type 0
IsUntouched w v =
    (v.table ≡ w.table)
    × (v.successful_total ≡ w.successful_total)
    × (v.failed_total ≡ w.failed_total)

fail_claim_stale :
    (row : Row) (held : Option String) (error : String) (now : ℕ) (table : Table)
    → IsReleased table held row.outbox_id
    → fail_claim row held error now table ≡ (none, table)
fail_claim_stale row none error now table h = refl
fail_claim_stale row (some token) error now table h =
    (stale_changes_nothing row.outbox_id token error now table h).2

finish_claim_stale :
    (row : Row) (held : Option String) (method : String) (now : ℕ) (table : Table)
    → IsReleased table held row.outbox_id
    → finish_claim row held method now table ≡ (false, table)
finish_claim_stale row none method now table h = refl
finish_claim_stale row (some token) method now table h =
    let same = stale_changes_nothing row.outbox_id token "" now table h in
    elim (Bool-cases (method == "delete_student")) [ inl e ↦ rw e same.1 | inr e ↦ rw e same.0 ]

give_up_stale :
    (row : Row) (error : String) (now : ℕ) (w : Worker)
    → IsReleased w.table row.claim_token row.outbox_id
    → IsUntouched w (give_up row error now w)
unfolding give_up
give_up_stale row error now w h =
    rw (fail_claim_stale row row.claim_token error now w.table h, give_up) (refl, refl, refl)

settle_stale :
    (row : Row) (method : String) (now : ℕ) (w : Worker)
    → IsReleased w.table row.claim_token row.outbox_id
    → IsUntouched w (settle row method now w)
unfolding settle
settle_stale row method now w h =
    rw (finish_claim_stale row row.claim_token method now w.table h, settle) (refl, refl, refl)

give_up-counts :
    (row : Row) (error : String) (now : ℕ) (w : Worker)
    → (w.successful_total ≤ (give_up row error now w).successful_total)
      × ((give_up row error now w).successful_total + (give_up row error now w).failed_total
          ≤ w.successful_total + w.failed_total + 1)
unfolding give_up
give_up-counts row error now w =
    elim (Option-cases (fail_claim row row.claim_token error now w.table).0) [
      | inl lost ↦ rw (lost, give_up) (omega arith, omega arith)
      | inr (status, held) ↦ rw (held, give_up) (omega arith, omega arith)
    ]

settle-counts :
    (row : Row) (method : String) (now : ℕ) (w : Worker)
    → (w.successful_total ≤ (settle row method now w).successful_total)
      × ((settle row method now w).successful_total + (settle row method now w).failed_total
          ≤ w.successful_total + w.failed_total + 1)
unfolding settle
settle-counts row method now w =
    elim (Bool-cases (finish_claim row row.claim_token method now w.table).0) [
      | inl done ↦ rw (done, settle) (omega arith, omega arith)
      | inr lost ↦ rw (lost, settle) (omega arith, omega arith)
    ]

module _ (index : Index) (quoted : Option String → String) (first_500 : String → String) where
  deliver_row_stale :
      (now : ℕ) (row : Row) (w : Worker)
      → IsReleased w.table row.claim_token row.outbox_id
      → IsUntouched w (deliver_row index quoted first_500 now row w)
  deliver_row_stale now row w h =
      deliver_row-cases index quoted first_500 (IsUntouched w) now row w
        (λ error. give_up_stale row error now w h) (λ method. settle_stale row method now w h)

  -- A worker whose claims were all taken over or ended changes neither the table nor its counters of
  -- successes and failures, whatever the index answers.
  superseded_batch :
      (now : ℕ) (rows : List Row) (w : Worker)
      → All (λ row. IsReleased w.table row.claim_token row.outbox_id) rows
      → IsUntouched w (deliver_rows index quoted first_500 now rows w)
  unfolding deliver_rows
  superseded_batch now [] w h = (refl, refl, refl)
  superseded_batch now (row ∷ rows) w h =
      let v : Worker = deliver_row index quoted first_500 now row w in
      let (table, successes, failures) = deliver_row_stale now row w h.0 in
      let (table', successes', failures') = superseded_batch now rows v (
        subst (λ t. All (λ row. IsReleased t row.claim_token row.outbox_id) rows) (sym table)
          h.1) in
      (cc, cc, cc)

  -- A delivery counts each of its rows at most once, as a success or as a failure, and successes only grow.
  pub deliver_rows-counts :
      (now : ℕ) (rows : List Row) (w : Worker)
      → let v = deliver_rows index quoted first_500 now rows w in
        (w.successful_total ≤ v.successful_total)
        × (v.successful_total + v.failed_total ≤ w.successful_total + w.failed_total + length rows)
  unfolding deliver_rows
  deliver_rows-counts now [] w = (omega arith, omega arith)
  deliver_rows-counts now (row ∷ rows) w =
      let v : Worker = deliver_row index quoted first_500 now row w in
      let (up, sum) =
        deliver_row-cases index quoted first_500
          (λ v.
            (w.successful_total ≤ v.successful_total)
            × (v.successful_total + v.failed_total ≤ w.successful_total + w.failed_total + 1))
          now row w (λ error. give_up-counts row error now w)
          (λ method. settle-counts row method now w) in
      let (up', sum') = deliver_rows-counts now rows v in
      (omega (arith, up, up'), omega (arith, sum, sum'))
