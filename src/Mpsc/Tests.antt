-- ===== src/Mpsc/Tests.antt =====
-- A queue of two items at most.
use event_stream_core.Common.{ℕ, ◌≡◌, refl, true, false, none, some, [], ◌∷◌, arith}
use event_stream_core.Ring.Contents.{fifo_push, fifo_pop}
use event_stream_core.Mpsc.{
  Queue, empty, exchange, link, count_in, count_out, push, take_next, pop, is_empty,
}
use event_stream_core.Mpsc.Chain.{contents, IsValid}
use event_stream_core.Mpsc.Refine.{push_refines_fifo, pop_refines_fifo}

abbrev one_item : Queue ℕ
one_item = record {
  nodes = record { item = none; next = some 1 } ∷ record { item = some 7; next = none } ∷ [];
  head = 0;
  tail = 1;
  size = 1;
}

one_item-IsValid : IsValid one_item
one_item-IsValid = record {
  head_in = omega arith;
  tail_last = refl;
  chain = (refl, refl);
  filled = (tt, tt);
  fits = omega arith;
  counted = refl;
}

one_item_is_pushed : (push 2 empty 7).0 ≡ one_item
unfolding push exchange link count_in empty
one_item_is_pushed = refl

third_is_refused : (push 2 (push 2 one_item 8).0 9).1 ≡ false
unfolding push exchange link count_in
third_is_refused = refl

is_empty_after_pop : is_empty (pop one_item).0 ≡ true
unfolding pop take_next count_out is_empty
is_empty_after_pop = refl

push_refines_fifo_example :
    let (q', done) = push 2 one_item 8 in
    ((contents q', done) ≡ fifo_push 2 (contents one_item) 8) × IsValid q'
push_refines_fifo_example = push_refines_fifo 2 one_item 8 (omega arith) one_item-IsValid

pop_refines_fifo_example :
    let (q', out) = pop one_item in ((out, contents q') ≡ fifo_pop (contents one_item)) × IsValid q'
pop_refines_fifo_example = pop_refines_fifo one_item one_item-IsValid
