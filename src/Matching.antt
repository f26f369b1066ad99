-- ===== src/Matching.antt =====
-- include/server/matching/fifomatching.hpp: `FIFOMatcher`.
--
-- `FIFOMatch` works through the reference `book_lvl`, which names the first level of the book. When
-- that level is erased the reference names freed storage, and `book_lvl = book_itr->second` then
-- copies the next level there, so later rounds work on the copy and not on the level in the book.
-- `LevelRef` says which of the two the reference names; freed storage is taken to keep what was
-- last written to it. What a read of `end()` gives is an argument, `junk`.
pub mod Fifo
pub mod Trade
pub mod Remove
pub mod Step
pub mod Sweep
pub mod Full
pub mod InLevel
pub mod Left
pub mod FirstLevel
pub mod NextLevel
pub mod Rounds
pub mod OneLevel
use spot_exchange.Prelude.{
  ℕ, zero, suc, Bool, true, false, Option, none, some, ltb, ◌==◌, if◌then◌else◌, min, find, erase,
  assign, first_key, after, length,
}
use spot_exchange.Prelude.Run.{Run, ok, fault, out_of_fuel, ◌>>=◌}
use spot_exchange.Info.{Order, MatchResult, no_match, add_fill, set_order_filled, decrease_qty}
use spot_exchange.Limits.{
  Side, ask, bid, Limit, Level, Limits, Book, deref, set_prev, rounds, level_order_count,
}

pub data LevelRef : Type 0 where
  in_book : ℕ → LevelRef
  freed : Level → LevelRef

-- The variables of `FIFOMatch`; `now` is what `getUnixTimestamp` returns.
pub record Match : Type 0 where
  pub order : Order
  pub book : Book
  pub limits : Limits
  pub result : MatchResult
  pub lvl : LevelRef
  pub now : ℕ

pub read_level : LevelRef → Book → Run Level
read_level (in_book k) book = elim (find k book) [ none ↦ fault | some level ↦ ok level ]
read_level (freed level) book = ok level

-- What a write through the reference makes of the book and of the reference.
abbrev pub write_book : LevelRef → Level → Book → Book
write_book (in_book k) level book = assign k level book
write_book (freed old) level book = book

abbrev pub write_ref : LevelRef → Level → LevelRef
write_ref (in_book k) level = in_book k
write_ref (freed old) level = freed level

-- `book_lvl = level`.
abbrev pub write_level : Level → Match → Match
write_level level s = record s { book = write_book s.lvl level s.book; lvl = write_ref s.lvl level }

-- `noMatchingLevel` of the two books.
unfoldable pub no_matching_level : Side → ℕ → ℕ → Bool
no_matching_level bid order_price bid_price = ltb bid_price order_price
no_matching_level ask order_price ask_price = ltb order_price ask_price

clear_prev : Option ℕ → Limits → Run Limits
clear_prev none limits = ok limits
clear_prev (some next) limits = set_prev next none limits

-- `removeOrderFromBook`; the result is the new `book_lim`.
pub remove_order_from_book : ℕ → Match → Run (Option ℕ × Match)
remove_order_from_book book_lim s = do
  limit ← deref book_lim s.limits
  limits ← clear_prev limit.next_limit s.limits
  level ← read_level s.lvl s.book
  let s' = write_level (record level { head = limit.next_limit }) s
  ok (limit.next_limit, record s' { limits = erase limit.order.order_id limits })

-- `addFills`: `order` and `book_order` as they are after the trade.
pub add_fills : ℕ → Order → Order → ℕ → MatchResult → MatchResult
unfolding add_fill
add_fills now order book_order fill_qty result =
    add_fill now order.ticker order.order_id book_order.price fill_qty (order.current_quantity == 0)
      book_order.user_id order.connection
      (add_fill now order.ticker book_order.order_id book_order.price fill_qty
        (book_order.current_quantity == 0) book_order.user_id order.connection result)

abbrev pub erase_ref : ℕ → Level → LevelRef → LevelRef
erase_ref k level (in_book j) = if j == k then freed level else in_book j
erase_ref k level (freed old) = freed old

-- `book.erase(k)`: a reference to the erased level names freed storage from then on.
pub erase_level : ℕ → Match → Run Match
erase_level k s = do
  level ← read_level s.lvl s.book
  ok (record s { book = erase k s.book; lvl = erase_ref k level s.lvl })

-- `book_lvl.getLevelOrderCount() == 0` and what depends on it.
pub close_level : ℕ → Match → Run Match
close_level book_itr s = do
  level ← read_level s.lvl s.book
  cnt ← level_order_count level s.limits
  s' ← if cnt == 0 then erase_level book_itr s else ok s
  ok (record s' { result = set_order_filled s'.result })

-- What follows when the incoming order is filled.
pub fully_matched : ℕ → ℕ → ℕ → Match → Run Match
fully_matched book_itr book_order book_qty s = do
  s' ← if book_qty == 0 then (do (next, s') ← remove_order_from_book book_order s; ok s') else ok s
  close_level book_itr s'

-- One round of the loop: the trade between the incoming order and `book_order`.
pub trade : ℕ → Limit → Match → Run (Order × Match)
trade p limit s = do
  let fill_qty = min limit.order.current_quantity s.order.current_quantity
  order ← decrease_qty fill_qty s.order
  book_order ← decrease_qty fill_qty limit.order
  ok (
    book_order,
    record s {
      order = order;
      limits = assign p (record limit { order = book_order }) s.limits;
      result = add_fills s.now order book_order fill_qty s.result;
    },
  )

-- The loop of `orderFullyMatchedInLevel`.
pub match_in_level : ℕ → ℕ → Option ℕ → Match → Run (Bool × Match)
match_in_level zero book_itr p s = out_of_fuel
match_in_level (suc n) book_itr none s = ok (false, s)
match_in_level (suc n) book_itr (some p) s = do
  limit ← deref p s.limits
  (book_order, s') ← trade p limit s
  elim (s'.order.current_quantity == 0) [
    | true ↦ do s'' ← fully_matched book_itr p book_order.current_quantity s'; ok (true, s'')
    | false ↦ do (p', s'') ← remove_order_from_book p s'; match_in_level n book_itr p' s''
  ]

-- `book_itr->second`, at the end of the book too.
next_level : Level → Option ℕ → Book → Run Level
unfolding read_level
next_level junk none book = ok junk
next_level junk (some k) book = read_level (in_book k) book

-- The end of a round: the level is erased if it is empty, and `book_lvl` gets the next level.
pub next_round : Level → ℕ → Match → Run (Option ℕ × Match)
next_round junk k s = do
  level ← read_level s.lvl s.book
  cnt ← level_order_count level s.limits
  let next = after k s.book
  s' ← if cnt == 0 then erase_level k s else ok s
  level' ← next_level junk next s'.book
  ok (next, write_level level' s')

pub match_loop : Level → Side → ℕ → Option ℕ → Match → Run Match
match_loop junk side zero book_itr s = out_of_fuel
match_loop junk side (suc n) none s = ok s
match_loop junk side (suc n) (some k) s = elim (no_matching_level side s.order.price k) [
  | true ↦ ok s
  | false ↦ do
    level ← read_level s.lvl s.book
    (filled, s') ← match_in_level (rounds s.limits) k level.head s
    elim filled [
      | true ↦ ok s'
      | false ↦ do (next, s'') ← next_round junk k s'; match_loop junk side n next s''
    ]
]

-- `FIFOMatch` on a book that is not empty.
unfoldable pub fifo_match : Level → ℕ → Side → Order → Book → Limits → Run Match
unfolding deref set_prev level_order_count decrease_qty add_fills first_key after erase assign
    clear_prev read_level next_level erase_level no_matching_level remove_order_from_book
    close_level fully_matched trade match_in_level next_round match_loop
fifo_match junk now side order book limits = elim (first_key book) [
  | none ↦ fault
  | some k ↦ match_loop junk side (suc (length book)) (some k) (record {
    order = order;
    book = book;
    limits = limits;
    result = no_match;
    lvl = in_book k;
    now = now;
  })
]
