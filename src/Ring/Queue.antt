-- ===== src/Ring/Queue.antt =====
-- What src/ring_buffer.rs promises: a queue of bytes, oldest first, that holds at most `capacity`.
use defmt_persist.Common.{ℕ, ◌-◌, List, [], ◌∷◌, ◌++◌, Bool, true, false, length, take, drop}

abbrev pub Queue : Type 0
Queue = List ℕ

-- The last bytes of a write are discarded where there is no room.
abbrev pub write : ℕ → Queue → List ℕ → Queue
write capacity q bytes = q ++ take (capacity - length q) bytes

abbrev pub release : Queue → ℕ → Queue
release q used = drop used q

abbrev pub is_empty : Queue → Bool
is_empty [] = true
is_empty (_ ∷ _) = false

-- What the two ends of a ring can ask for: the producer a write; the consumer whether there is
-- data, and a grant of which it releases some bytes.
pub data Call : Type 0 where
  put : List ℕ → Call
  poll : Call
  get : (used : ℕ) → Call

-- What a call shows of the ring.
pub data Reply : Type 0 where
  done : Reply
  found_empty : Bool → Reply
  offered : List ℕ → Reply

unfoldable pub run : ℕ → Queue → List Call → List Reply
run capacity q [] = []
run capacity q (put bytes ∷ cs) = done ∷ run capacity (write capacity q bytes) cs
run capacity q (poll ∷ cs) = found_empty (is_empty q) ∷ run capacity q cs
run capacity q (get used ∷ cs) = offered q ∷ run capacity (release q used) cs
