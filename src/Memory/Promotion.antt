-- ===== src/Memory/Promotion.antt =====
-- When a fact is promoted, and what an upsert does to it (memory/pg_memory.py).
use bridgesat_agent.Common.{◌≤◌, ◌≡◌, ◌≢◌, ◌↔◌, List, length, distinct, arith, string_eq, option_eq}
use bridgesat_agent.Memory.Tables.{Episode, inference, stable}
use bridgesat_agent.Memory.Facts.{promotion, sessions_of, items_of}

-- A fact is `stable` exactly when at least three episodes of at least two sessions support it, and
-- `inference` exactly when it is not stable and at least two items do; the confidence lies between
-- 0.5 and 0.9, and it is at least 0.8 for a stable fact.
promotion_iff :
    (supporting : List Episode)
    → let (status, confidence) = promotion supporting in
      let distinct_sessions = length (distinct (sessions_of supporting)) in
      let distinct_items = length (distinct (items_of supporting)) in
      ((status ≡ stable) ↔ ((3 ≤ length supporting) × (2 ≤ distinct_sessions)))
      × ((status ≡ inference) ↔ ((status ≢ stable) × (2 ≤ distinct_items)))
      × (50 ≤ confidence)
      × (confidence ≤ 90)
      × (status ≡ stable → 80 ≤ confidence)
unfolding promotion
promotion_iff supporting = ground arith
