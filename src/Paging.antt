-- ===== src/Paging.antt =====
-- pkg/pagination: pages of a list.
use native.Mathlib.Nat.{mod-lt, div-add-mod'}
use multi_trade_platform.Base.{
  ℕ, zero, suc, ◌+◌, ◌-◌, ◌*◌, ◌/◌, ◌%◌, ◌≤◌, ◌<◌, ◌≡◌, arith, ◌||◌, ltb, ◌==◌, max, if◌then◌else◌,
}

-- Params and Metadata. (A negative number is treated as 0 is.)
pub record Params : Type 0 where
  pub page : ℕ
  pub page_size : ℕ

pub record Metadata : Type 0 where
  pub total : ℕ
  pub page : ℕ
  pub page_size : ℕ
  pub total_pages : ℕ

-- The defaults that GetOffset writes into its parameters.
abbrev pub with_defaults : Params → Params
with_defaults p = record {
  page = if ltb p.page 1 then 1 else p.page;
  page_size = if ltb p.page_size 1 || ltb 100 p.page_size then 20 else p.page_size;
}

-- The offset, and the parameters as GetOffset leaves them.
unfoldable pub get_offset : Params → ℕ × Params
get_offset p = let q = with_defaults p in ((q.page - 1) * q.page_size, q)

unfoldable pub new_metadata : ℕ → ℕ → ℕ → Metadata
new_metadata total page page_size =
    let size = if ltb page_size 1 then 20 else page_size in
    let pages = (total + size - 1) / size in
    record {
      total = total;
      page = page;
      page_size = size;
      total_pages = if pages == 0 then 1 else pages;
    }

pages_hold_go :
    (total size q r : ℕ)
    → r < size
    → q * size + r ≡ total + size - 1
    → let pages = if q == 0 then 1 else q in
      (total ≤ pages * size) × ((pages - 1) * size < max total 1)
pages_hold_go total size zero r small e = (omega arith, omega arith)
pages_hold_go total size (suc q) r small e =
    let pages : (if suc q == 0 then 1 else suc q) ≡ suc q = ground arith in
    let fewer : suc q - 1 ≡ q = omega arith in rw (pages, fewer) (omega arith, omega arith)

pub pages_hold :
    (total size : ℕ)
    → 0 < size
    → let n = (total + size - 1) / size in
      let pages = if n == 0 then 1 else n in
      (total ≤ pages * size) × ((pages - 1) * size < max total 1)
pages_hold total size pos =
    let n = total + size - 1 in
    pages_hold_go total size (n / size) (n % size) (mod-lt n pos) (div-add-mod' n size)

abbrev size_of : ℕ → ℕ
size_of page_size = if ltb page_size 1 then 20 else page_size

size_of_pos : (page_size : ℕ) → 0 < size_of page_size
size_of_pos page_size = ground arith

-- The pages that NewMetadata counts hold all rows, and one page fewer would not: with all but the last
-- page full, some row is left, unless there is no row at all.
pub new_metadata_covers :
    (total page page_size : ℕ)
    → let m = new_metadata total page page_size in
      (0 < m.page_size)
      × (total ≤ m.total_pages * m.page_size)
      × ((m.total_pages - 1) * m.page_size < max total 1)
unfolding new_metadata
new_metadata_covers total page page_size =
    let pos = size_of_pos page_size in
    let (held, needed) = pages_hold total (size_of page_size) pos in (pos, held, needed)
