-- ===== src/Memory/Init.antt =====
-- What `memory_init` leaves in the array.
use m.Base.{ℕ, zero, suc, ◌+◌, ◌≤◌, ◌<◌, ◌≡◌, refl, arith, some}
use m.Memory.{Memory, update, clear_from, memory_init, total_memory_size}

pub clear_from-bytes :
    (left i j : ℕ) (mem : Memory)
    → (i ≤ j → j < i + left → (clear_from left i mem).bytes j ≡ 0)
      × (j < i → (clear_from left i mem).bytes j ≡ mem.bytes j)
      × (i + left ≤ j → (clear_from left i mem).bytes j ≡ mem.bytes j)
unfolding clear_from
clear_from-bytes zero i j mem = (λ p q. absurd (omega arith), λ p. refl, λ p. refl)
clear_from-bytes (suc left) i j mem =
    let rest = clear_from-bytes left (i + 1) j (record { bytes = update mem.bytes i 0 }) in
    (
      λ p q. ground (arith, rest.0, rest.1),
      λ p. ground (arith, rest.1),
      λ p. ground (arith, rest.2),
    )

-- Whatever the array held, `memory_init` returns 0 and every byte of it is 0.
pub memory_init-bytes :
    (mem : Memory) (j : ℕ)
    → j < total_memory_size
    → ((memory_init mem).0 ≡ some 0) × ((memory_init mem).1.bytes j ≡ 0)
unfolding memory_init
memory_init-bytes mem j h =
    (refl, (clear_from-bytes total_memory_size 0 j mem).0 (omega arith) (omega arith))
