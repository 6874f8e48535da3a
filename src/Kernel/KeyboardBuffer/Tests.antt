-- ===== src/Kernel/KeyboardBuffer/Tests.antt =====
-- Runs of the keyboard buffer round the end of its storage, and instances of its theorems there.
use layla_os.Base.{◌≡◌, ◌↔◌, refl, [], ◌∷◌, none, some, true, arith, replicate}
use layla_os.Kernel.KeyboardBuffer.{KeyboardBuffer, enqueue, dequeue, is_empty}
use layla_os.Kernel.KeyboardBuffer.Refine.{
  IsValid, contents, push, pop, enqueue_refines, dequeue_refines, is_empty_iff, run_refines, run,
  run_queue, put, get,
}

abbrev near_end : KeyboardBuffer
near_end = record { buffer = replicate 256 b'x'; head = 255; tail = 255 }

near_end-IsValid : IsValid near_end
near_end-IsValid = record { storage = refl; head_in = omega arith; tail_in = omega arith }

wraps :
    run near_end (put b'a' ∷ put b'b' ∷ get ∷ get ∷ get ∷ []) ≡ some b'a' ∷ some b'b' ∷ none ∷ []
unfolding run enqueue dequeue
wraps = refl

enqueue_example :
    IsValid (enqueue near_end b'a')
    × (contents (enqueue near_end b'a') ≡ push (contents near_end) b'a')
enqueue_example = enqueue_refines near_end b'a' near_end-IsValid

dequeue_example :
    IsValid (dequeue near_end).1
    × (((dequeue near_end).0, contents (dequeue near_end).1) ≡ pop (contents near_end))
dequeue_example = dequeue_refines near_end near_end-IsValid

is_empty_example : (is_empty near_end ≡ true) ↔ (contents near_end ≡ [])
is_empty_example = is_empty_iff near_end near_end-IsValid

run_refines_example :
    run near_end (put b'a' ∷ get ∷ []) ≡ run_queue (contents near_end) (put b'a' ∷ get ∷ [])
run_refines_example = run_refines (put b'a' ∷ get ∷ []) near_end near_end-IsValid
