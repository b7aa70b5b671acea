-- ===== src/Task/Postgres/Pages.antt =====
-- The bounds of a page.
use experiment_go.Prelude.{◌≡◌, ◌⊎◌, arith}
use experiment_go.Prelude.Int.{ℤ, pos, ◌≤ℤ◌, ◌<ℤ◌}
use experiment_go.Task.Postgres.{page_limit, page_offset}

-- Whatever is asked for, Postgres is given a limit from 1 to 100 and an offset that is not negative.
-- A limit from 1 to 100 is kept and any other becomes 20; an offset is kept unless it is negative,
-- and then becomes 0.
pub page_bounds :
    (limit offset : ℤ)
    → (pos 1 ≤ℤ page_limit limit)
      × (page_limit limit ≤ℤ pos 100)
      × (pos 0 ≤ℤ page_offset offset)
      × (((pos 1 ≤ℤ limit) × (limit ≤ℤ pos 100) × (page_limit limit ≡ limit))
          ⊎ (((limit <ℤ pos 1) ⊎ (pos 100 <ℤ limit)) × (page_limit limit ≡ pos 20)))
      × (((pos 0 ≤ℤ offset) × (page_offset offset ≡ offset))
          ⊎ ((offset <ℤ pos 0) × (page_offset offset ≡ pos 0)))
unfolding page_limit page_offset
page_bounds limit offset = (ground arith, ground arith, ground arith, ground arith, ground arith)
