-- ===== src/ClientBook.antt =====
-- include/client/clientorderbook.hpp: `ClientOrderBook`, the sizes by price that a client shows.
--
-- A size is an `int64_t` and a number of shares an `int32_t`; both wrap. The printing is left out.
pub mod Sizes
use spot_exchange.Prelude.{
  ℕ, Bool, true, false, Option, none, some, List, [], ltb, ◌==◌, if◌then◌else◌, Map, find, erase,
  assign, emplace_by, ℤ, pos, ◌+ℤ◌, ◌-ℤ◌, ltb_ℤ, wrap,
}

pub record ClientOrderBook : Type 0 where
  pub ticker : ℕ
  pub asks : Map ℤ
  pub bids : Map ℤ

-- `ClientOrderBook(ticker)`.
abbrev pub new_book : ℕ → ClientOrderBook
new_book ticker = record { ticker = ticker; asks = []; bids = [] }

-- `bids_` where `is_buy_side`, and `asks_` elsewhere.
abbrev pub buys : ℕ → Bool
buys is_buy_side = if is_buy_side == 0 then false else true

abbrev pub sizes_of : Bool → ClientOrderBook → Map ℤ
sizes_of true book = book.bids
sizes_of false book = book.asks

abbrev pub with_sizes : Bool → Map ℤ → ClientOrderBook → ClientOrderBook
with_sizes true sizes book = record book { bids = sizes }
with_sizes false sizes book = record book { asks = sizes }

-- `book_side[price] += shares`: `operator[]` makes a missing entry, of 0.
pub add_size : ℤ → ℕ → Map ℤ → Map ℤ
add_size shares price sizes = elim (find price sizes) [
  | none ↦ emplace_by ltb price (wrap 64 (pos 0 +ℤ shares)) sizes
  | some size ↦ assign price (wrap 64 (size +ℤ shares)) sizes
]

-- `addToBook`.
unfoldable pub add_to_book :
    (is_buy_side : ℕ) (shares : ℤ) (price : ℕ) → ClientOrderBook → ClientOrderBook
unfolding add_size find assign emplace_by wrap ◌+ℤ◌
add_to_book is_buy_side shares price book =
    let side = buys is_buy_side in with_sizes side (add_size shares price (sizes_of side book)) book

-- What `removeFromBook` does to the sizes of its side: an entry that is not above 0 any more goes.
pub remove_size : ℤ → ℕ → Map ℤ → Map ℤ
remove_size shares price sizes = elim (find price sizes) [
  | none ↦ sizes
  | some size ↦
      let size' = wrap 64 (size -ℤ shares) in
      if ltb_ℤ (pos 0) size' then assign price size' sizes else erase price sizes
]

-- `removeFromBook`.
unfoldable pub remove_from_book :
    (is_buy_side : ℕ) (shares : ℤ) (price : ℕ) → ClientOrderBook → ClientOrderBook
unfolding remove_size find assign erase wrap ◌-ℤ◌ ltb_ℤ
remove_from_book is_buy_side shares price book =
    let side = buys is_buy_side in
    with_sizes side (remove_size shares price (sizes_of side book)) book
