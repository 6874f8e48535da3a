-- ===== src/Kernel/KeyboardBuffer/Refine.antt =====
-- The ring behaves as a queue of at most 255 characters that drops what does not fit.
use layla_os.Base.{
  ℕ, zero, suc, ◌+◌, ◌-◌, ◌%◌, ◌<◌, ◌≡◌, ◌≢◌, refl, ◌∙◌, sym, ap, ap₂, true, false, Option, none,
  some, List, [], ◌∷◌, ◌++◌, arith, ◌↔◌, ltb, ◌==◌, if◌then◌else◌, length, length-set, get_elem?,
  get_or, set, get_or-set_self, get_or-set_ne, get_elem?-eq-get_or, ℕ_discrete,
}
use layla_os.Kernel.KeyboardBuffer.{KeyboardBuffer, buffer_size, enqueue, dequeue, is_empty}

pub record IsValid (k : KeyboardBuffer) : Type 0 where
  pub storage : length k.buffer ≡ buffer_size
  pub head_in : k.head < buffer_size
  pub tail_in : k.tail < buffer_size

-- The `n` characters from position `h` on, counted round the ring.
pub window : List ℕ → ℕ → ℕ → List ℕ
window buf h zero = []
window buf h (suc n) = get_or buf (h % buffer_size) 0 ∷ window buf (h + 1) n

-- How many characters are held.
abbrev pub size : KeyboardBuffer → ℕ
size k = (k.tail + buffer_size - k.head) % buffer_size

abbrev pub contents : KeyboardBuffer → List ℕ
contents k = window k.buffer k.head (size k)

pub length-window : (buf : List ℕ) (h n : ℕ) → length (window buf h n) ≡ n
unfolding window
length-window buf h zero = refl
length-window buf h (suc n) = ap suc (length-window buf (h + 1) n)

window-shift :
    (buf : List ℕ) (h h' n : ℕ)
    → h % buffer_size ≡ h' % buffer_size
    → window buf h n ≡ window buf h' n
unfolding window
window-shift buf h h' zero e = refl
window-shift buf h h' (suc n) e =
    ap₂ ◌∷◌ (ap (λ (i : ℕ). get_or buf i 0) e) (window-shift buf (h + 1) (h' + 1) n (omega arith))

-- Writing just past a window extends it by that character.
window-set :
    (buf : List ℕ) (h n i c : ℕ)
    → length buf ≡ buffer_size
    → n < buffer_size
    → i ≡ (h + n) % buffer_size
    → window (set buf i c) h (suc n) ≡ window buf h n ++ (c ∷ [])
unfolding window
window-set buf h zero i c l u e =
    let here : h % buffer_size ≡ i = omega arith in
    rw (here, get_or-set_self buf i c 0 (omega arith))
window-set buf h (suc n) i c l u e =
    ap₂ ◌∷◌ (get_or-set_ne buf i (h % buffer_size) c 0 (omega arith))
      (window-set buf (h + 1) n i c l (omega arith) (omega arith))

-- A queue of at most 255 characters, oldest first.
abbrev pub push : List ℕ → ℕ → List ℕ
push q c = if ltb (length q) 255 then q ++ (c ∷ []) else q

abbrev pub pop : List ℕ → Option ℕ × List ℕ
pop [] = (none, [])
pop (c ∷ q) = (some c, q)

-- `Enqueue` keeps the ring valid and is the queue's `push`.
pub enqueue_refines :
    (k : KeyboardBuffer) (c : ℕ)
    → IsValid k
    → IsValid (enqueue k c) × (contents (enqueue k c) ≡ push (contents k) c)
unfolding enqueue
enqueue_refines k c v = elim (ℕ_discrete ((k.tail + 1) % buffer_size) k.head) [
  | yes e ↦
      let full : (((k.tail + 1) % buffer_size) == k.head) ≡ true = ground arith in
      let held : ltb (length (contents k)) 255 ≡ false =
        ground (arith, length-window k.buffer k.head (size k)) in
      rw (full, enqueue) (v, rw held)
  | no ne ↦
      let free : (((k.tail + 1) % buffer_size) == k.head) ≡ false = ground arith in
      let held : ltb (length (contents k)) 255 ≡ true =
        ground (arith, length-window k.buffer k.head (size k)) in
      rw (free, enqueue)
        (
          record {
            storage = length-set k.buffer k.tail c ∙ v.storage;
            head_in = v.head_in;
            tail_in = omega arith;
          },
          rw held (
              ap (window (set k.buffer k.tail c) k.head)
                {x = ((k.tail + 1) % buffer_size + buffer_size - k.head) % buffer_size}
                {y = suc (size k)} (omega arith)
              ∙ window-set k.buffer k.head (size k) k.tail c v.storage (omega arith) (omega arith)),
        )
]

window-pop :
    (buf : List ℕ) (h n : ℕ)
    → h < length buf
    → h < buffer_size
    → n ≢ 0
    → pop (window buf h n) ≡ (get_elem? buf h, window buf ((h + 1) % buffer_size) (n - 1))
unfolding window
window-pop buf h zero l u ne = absurd (ne refl)
window-pop buf h (suc n) l u ne =
    let here : h % buffer_size ≡ h = omega arith in
    let pred : suc n - 1 ≡ n = omega arith in
    rw (here, pred)
      (ground (
        arith,
        get_elem?-eq-get_or buf h 0 l,
        window-shift buf (h + 1) ((h + 1) % buffer_size) n (omega arith),
      ))

-- `Dequeue` keeps the ring valid and is the queue's `pop`.
pub dequeue_refines :
    (k : KeyboardBuffer)
    → IsValid k
    → IsValid (dequeue k).1 × (((dequeue k).0, contents (dequeue k).1) ≡ pop (contents k))
unfolding dequeue window
dequeue_refines k v = elim (ℕ_discrete k.head k.tail) [
  | yes e ↦
      let empty : (k.head == k.tail) ≡ true = ground arith in
      let none_held : size k ≡ 0 = omega arith in rw (empty, dequeue) (v, rw none_held)
  | no ne ↦
      let some_held : (k.head == k.tail) ≡ false = ground arith in
      let fewer : (k.tail + buffer_size - (k.head + 1) % buffer_size) % buffer_size ≡ size k - 1 =
        omega arith in
      rw (some_held, dequeue)
        (
          record { storage = v.storage; head_in = omega arith; tail_in = v.tail_in },
          rw fewer
              (sym (window-pop k.buffer k.head (size k) (omega arith) (omega arith) (omega arith))),
        )
]

-- `IsEmpty` tells whether there is a character to read.
pub is_empty_iff : (k : KeyboardBuffer) → IsValid k → (is_empty k ≡ true) ↔ (contents k ≡ [])
unfolding is_empty window
is_empty_iff k v = (
  λ h. let none_held : size k ≡ 0 = ground arith in rw none_held,
  λ e.
      let none_held : size k ≡ 0 = sym (length-window k.buffer k.head (size k)) ∙ ap length e in
      ground (arith, none_held),
)

-- What a client can ask, and a run of such calls with what each returns.
pub data Op : Type 0 where
  put : ℕ → Op
  get : Op

unfoldable pub run : KeyboardBuffer → List Op → List (Option ℕ)
run k [] = []
run k (put c ∷ ops) = run (enqueue k c) ops
run k (get ∷ ops) = (dequeue k).0 ∷ run (dequeue k).1 ops

unfoldable pub run_queue : List ℕ → List Op → List (Option ℕ)
run_queue q [] = []
run_queue q (put c ∷ ops) = run_queue (push q c) ops
run_queue q (get ∷ ops) = (pop q).0 ∷ run_queue (pop q).1 ops

-- No sequence of calls tells a valid ring from the queue of its contents.
pub run_refines :
    (ops : List Op) (k : KeyboardBuffer) → IsValid k → run k ops ≡ run_queue (contents k) ops
unfolding run run_queue
run_refines [] k v = refl
run_refines (put c ∷ ops) k v =
    let (valid, same) = enqueue_refines k c v in
    run_refines ops (enqueue k c) valid ∙ ap (λ q. run_queue q ops) same
run_refines (get ∷ ops) k v =
    let (valid, same) = dequeue_refines k v in
    ap (λ qs. qs ∷ run (dequeue k).1 ops) (ap (λ r. r.0) same)
    ∙ ap (◌∷◌ (pop (contents k)).0)
        (run_refines ops (dequeue k).1 valid ∙ ap (λ r. run_queue r.1 ops) same)
