-- ===== src/Ring/Tests.antt =====
-- A ring of four slots, wrapped round.
use event_stream_core.Common.{ℕ, ◌≡◌, refl, true, false, [], ◌∷◌, arith}
use event_stream_core.Ring.{Ring, push, pop, size}
use event_stream_core.Ring.Bounds.{IsValid}
use event_stream_core.Ring.Contents.{fifo_push, fifo_pop, contents, push_refines, pop_refines}

-- 7 in slot 3, then 8 in slot 0.
abbrev wrapped : Ring ℕ
wrapped = record { buffer = 8 ∷ 5 ∷ 6 ∷ 7 ∷ []; head = 1; tail = 3 }

wrapped-IsValid : IsValid 4 wrapped
wrapped-IsValid = omega arith

contents-wrapped : contents 4 wrapped ≡ 7 ∷ 8 ∷ []
unfolding size
contents-wrapped = refl

third_fits : push 4 wrapped 9 ≡ (record wrapped { buffer = 8 ∷ 9 ∷ 6 ∷ 7 ∷ []; head = 2 }, true)
unfolding push
third_fits = refl

fourth_is_refused : (push 4 (push 4 wrapped 9).0 10).1 ≡ false
unfolding push
fourth_is_refused = refl

push_refines_example :
    let (r', done) = push 4 wrapped 9 in (contents 4 r', done) ≡ fifo_push 3 (contents 4 wrapped) 9
push_refines_example = push_refines 4 9 wrapped-IsValid

pop_refines_example :
    let (out, r') = pop 4 wrapped in (out, contents 4 r') ≡ fifo_pop (contents 4 wrapped)
pop_refines_example = pop_refines 4 wrapped-IsValid
