-- ===== src/Examples/Memory.antt =====
-- A host whose streams are held in memory.
use muxly.Base.{
  ℕ, ◌<◌, ◌≡◌, refl, ap, [], ◌++◌, arith, Bytes, ltb, ◌==◌, if◌then◌else◌, ltb-true, ltb-false,
  length, length-append, take, drop, take-append_exact, drop-append_exact,
}
use muxly.Outcome.{ok, err, external}
use muxly.Host.{Host, Readable, Writable, Io, upto, beyond}

pub record Memory : Type 0 where
  pub incoming : ℕ → Bytes
  pub outgoing : ℕ → Bytes

abbrev pub set_at : (ℕ → Bytes) → ℕ → Bytes → ℕ → Bytes
set_at f k s j = if j == k then s else f j

abbrev pub read_until_memory : ℕ → (limit delimiter : ℕ) → Io Memory Bytes
read_until_memory k limit d w = (
  ok (upto limit d (w.incoming k)),
  record w { incoming = set_at w.incoming k (beyond limit d (w.incoming k)) },
)

abbrev pub read_exact_memory : ℕ → ℕ → Io Memory Bytes
read_exact_memory k n w =
    if ltb (length (w.incoming k)) n
    then (err (external 0), record w { incoming = set_at w.incoming k [] })
    else (
      ok (take n (w.incoming k)),
      record w { incoming = set_at w.incoming k (drop n (w.incoming k)) },
    )

abbrev pub write_all_memory : ℕ → Bytes → Io Memory (Unit {0})
write_all_memory k b w = (ok tt, record w { outgoing = set_at w.outgoing k (w.outgoing k ++ b) })

abbrev pub memory : Host
memory = record {
  World = Memory;
  Handle = ℕ;
  read_until = read_until_memory;
  read_exact = read_exact_memory;
  write_all = write_all_memory;
  flush = λ k w. (ok tt, w);
  connect_unix = λ path w. (ok 1, w);
}

abbrev pub MemoryDelivers : Memory → ℕ → Bytes → Type 0
MemoryDelivers w k s = w.incoming k ≡ s

pub until_law :
    (w : Memory) (k : ℕ) (s : Bytes) (limit d : ℕ)
    → MemoryDelivers w k s
    → (w' : Memory) × (read_until_memory k limit d w ≡ (ok (upto limit d s), w'))
      × MemoryDelivers w' k (beyond limit d s)
until_law w k s limit d e = (
  (read_until_memory k limit d w).1,
  ap (λ t. (ok (upto limit d t), (read_until_memory k limit d w).1)) e,
  ground (arith, ap (beyond limit d) e),
)

pub exact_law :
    (w : Memory) (k : ℕ) (body s : Bytes)
    → MemoryDelivers w k (body ++ s)
    → (w' : Memory) × (read_exact_memory k (length body) w ≡ (ok body, w')) × MemoryDelivers w' k s
exact_law w k body s e = (
  record w { incoming = set_at w.incoming k s },
  rw (
    e,
    ltb-false (length (body ++ s)) (length body) (omega (arith, length-append body s)),
    take-append_exact body s,
    drop-append_exact body s,
  ),
  ground arith,
)

pub exact_short :
    (w : Memory) (k : ℕ) (s : Bytes) (n : ℕ)
    → MemoryDelivers w k s
    → length s < n
    → (code : ℕ) × ((read_exact_memory k n w).0 ≡ err (external code))
exact_short w k s n e lt = (0, rw (e, ltb-true (length s) n lt))

abbrev pub memory_readable : Readable memory
memory_readable = record {
  Delivers = MemoryDelivers;
  read_until_law = until_law;
  read_exact_law = exact_law;
  read_exact_short = exact_short;
}

pub write_law :
    (w : Memory) (k : ℕ) (b : Bytes)
    → (write_all_memory k b w).0 ≡ ok tt
    → (write_all_memory k b w).1.outgoing k ≡ w.outgoing k ++ b
write_law w k b e = ground arith

abbrev pub memory_writable : Writable memory
memory_writable = record {
  written = λ w k. w.outgoing k;
  write_all_law = write_law;
  flush_law = λ w k e. refl;
}

-- Stream 0 delivers these bytes; nothing has been written.
abbrev pub with_input : Bytes → Memory
with_input s = record { incoming = set_at (λ _. []) 0 s; outgoing = λ _. [] }
