-- ===== src/Admin/Pages.antt =====
-- The pages of the list of users, read one after another.
use Prim.Native.String.{String}
use mathlib.Core.List.{Perm}
use native.Mathlib.Nat.{zero-mul}
use multi_trade_platform.Base.{
  ℕ, zero, suc, ◌+◌, ◌-◌, ◌*◌, ◌/◌, ◌==◌, ◌≡◌, refl, ap, ◌∙◌, arith, List, [], ◌++◌, Result, ok,
  err, select, take, drop, length, take-drop, take_all, if◌then◌else◌,
}
use multi_trade_platform.Base.Newest.{
  newest_first, length-newest_first, newest_first-perm, newest_first-IsNewestFirst, IsNewestFirst,
}
use multi_trade_platform.Store.{World, Error, User, statement, ◌>>=◌}
use multi_trade_platform.User
use multi_trade_platform.Paging.{pages_hold}
use multi_trade_platform.Admin.{UserPage, list_users, size_of_page, page_number}

-- The first n pages.
abbrev pub pages : (ℕ → List User) → ℕ → List User
pages f zero = []
pages f (suc n) = pages f n ++ f (suc n)

abbrev pub users_of : Result Error UserPage → List User
users_of (ok p) = p.users
users_of (err e) = []

abbrev pub pages_of : Result Error UserPage → ℕ
pages_of (ok p) = p.total_pages
pages_of (err e) = 0

module _ (role status : String) (page_size : ℕ) (w : World) (quiet : w.faults ≡ []) where
  listed :
      (page : ℕ)
      → let size = size_of_page page_size in
        let us = select (User.matches role status) w.db.users in
        let n = (length us + size - 1) / size in
        list_users role status page page_size w ≡ (
          ok (record {
            users =
                take size (drop ((page_number page - 1) * size) (newest_first User.created_at us));
            total = length us;
            page = page_number page;
            page_size = size;
            total_pages = if n == 0 then 1 else n;
          }),
          w,
        )
  unfolding list_users User.list_users User.count_users statement ◌>>=◌
  listed page = ground arith

  pages_taken :
      (n : ℕ)
      → pages (λ i. users_of (list_users role status i page_size w).0) n
        ≡ take
            (n * size_of_page page_size)
            (newest_first User.created_at (select (User.matches role status) w.db.users))
  pages_taken zero = rw zero-mul refl
  pages_taken (suc n) =
      let us = newest_first User.created_at (select (User.matches role status) w.db.users) in
      let size = size_of_page page_size in
      let before = pages_taken n in
      let page = ap (λ r. users_of r.0) (listed (suc n)) in
      let number : page_number (suc n) - 1 ≡ n = ground arith in
      let more : suc n * size ≡ n * size + size = omega arith in
      rw (before, page, number, more) (take-drop (n * size) size us)

  pages_newest :
      pages
        (λ i. users_of (list_users role status i page_size w).0)
        (pages_of (list_users role status 1 page_size w).0)
      ≡ newest_first User.created_at (select (User.matches role status) w.db.users)
  pages_newest =
      let us = select (User.matches role status) w.db.users in
      let size = size_of_page page_size in
      let count = ap (λ r. pages_of r.0) (listed 1) in
      let n = (length us + size - 1) / size in
      let (held, last) = pages_hold (length us) size (ground arith) in
      let all =
        take_all ((if n == 0 then 1 else n) * size) (newest_first User.created_at us)
          (let l = length-newest_first User.created_at us in omega arith) in
      rw count (pages_taken (if n == 0 then 1 else n) ∙ all)

  -- The pages that the list of users counts, read one after another while the table does not change
  -- and no statement fails, are all users that match, each once, and no user was created after one on
  -- the list before.
  pub pages-list_users :
      let listed_users =
        pages
          (λ i. users_of (list_users role status i page_size w).0)
          (pages_of (list_users role status 1 page_size w).0) in
      Perm listed_users (select (User.matches role status) w.db.users)
      × IsNewestFirst User.created_at listed_users
  pages-list_users =
      let us = select (User.matches role status) w.db.users in
      rw pages_newest
        (newest_first-perm User.created_at us, newest_first-IsNewestFirst User.created_at us)
