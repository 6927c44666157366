-- ===== src/Tests/Rings.antt =====
-- A ring of capacity 4 that holds two elements across the end of its buffer.
use profit_playground.Common.{ℕ, ◌*◌, ◌≡◌, arith}
use profit_playground.Ring.{Ring, push, pop}
use profit_playground.Ring.Queue.{IsValid, contents, enqueue, dequeue, push_refines, pop_refines}

abbrev wrapped : Ring ℕ
wrapped = record { buf = λ i. 10 * i; head = 1; tail = 3; dropped = 0 }

wrapped-IsValid : IsValid 4 wrapped
wrapped-IsValid = record { head_in = omega arith; tail_in = omega arith }

push_refines_example :
    ((contents 4 (push 4 64 wrapped 7).0, (push 4 64 wrapped 7).1)
      ≡ enqueue 4 (contents 4 wrapped) 7)
    × IsValid 4 (push 4 64 wrapped 7).0
push_refines_example = push_refines 4 (omega arith) 64 wrapped 7 wrapped-IsValid

pop_refines_example :
    ((contents 4 (pop 4 wrapped).0, (pop 4 wrapped).1) ≡ dequeue (contents 4 wrapped))
    × IsValid 4 (pop 4 wrapped).0
pop_refines_example = pop_refines 4 (omega arith) wrapped wrapped-IsValid
