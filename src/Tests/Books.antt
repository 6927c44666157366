-- ===== src/Tests/Books.antt =====
-- The book of engine/orderbook.c with two asks in it.
use profit_playground.Common.{arith, true}
use profit_playground.Common.Int.{pos}
use profit_playground.Book.State.{Side, Store, zero_entry}
use profit_playground.Book.Manage.{empty_book, add_order}
use profit_playground.Book.Matching.{match_against_side}
use profit_playground.Book.Matching.Account.{Booked, match_against_side-Booked}

abbrev blank : Store
blank = record { book = empty_book; lookup = λ i. zero_entry; clock = λ n. n; reads = 0 }

-- 5 at 100 and 3 at 101.
abbrev two_asks : Store
two_asks = (add_order true (add_order true blank Side.ask (pos 100) 5 0).0 Side.ask (pos 101) 3 0).0

match_against_side-Booked_example :
    Booked Side.ask (pos 101) 6 (match_against_side true two_asks Side.ask (pos 101) 6)
match_against_side-Booked_example =
    match_against_side-Booked two_asks Side.ask (pos 101) 6 (omega arith)
