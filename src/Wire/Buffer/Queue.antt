-- ===== src/Wire/Buffer/Queue.antt =====
-- A receive buffer is a queue of bytes that wastes little space: any run of reads of the socket and
-- of consumed frames.
use bnet_command_center.Base.{
  ℕ, ◌+◌, ◌/◌, ◌≤◌, ◌<◌, ◌≡◌, refl, ◌∙◌, ap, List, [], ◌∷◌, ◌++◌, length, length-append, drop, min,
  ltb, leb, ◌==◌, ◌&&◌, ◌⊎◌, All, Bool-cases, inl, inr, arith,
}
use bnet_command_center.Wire.Buffer.{
  RecvBuf, as_slice, clear, consume, compact, receive, rewound, receive-buf, IsValid,
  as_slice-consume, as_slice-receive,
}

-- What the node does with the buffer: a read that was offered `n` bytes, and a frame of `n` bytes.
pub data Use : Type 0 where
  received : ℕ → List ℕ → Use
  consumed : ℕ → Use

abbrev pub apply : Use → RecvBuf → RecvBuf
apply (received n bytes) b = receive b n bytes
apply (consumed n) b = consume b n

unfoldable pub run : List Use → RecvBuf → RecvBuf
run [] b = b
run (u ∷ us) b = run us (apply u b)

-- The queue of bytes.
abbrev pub queue : List Use → List ℕ → List ℕ
queue [] bytes = bytes
queue (received n new ∷ us) bytes = queue us (bytes ++ new)
queue (consumed n ∷ us) bytes = queue us (drop n bytes)

-- A read gives no more than it was offered.
abbrev pub Offered : Use → Type 0
Offered (received n bytes) = length bytes ≤ n
Offered (consumed n) = Unit {0}

-- The bytes before the head are few, or less than half of the buffer.
abbrev pub IsCompact : RecvBuf → Type 0
IsCompact b = IsValid b × ((b.head < 512) ⊎ (b.head < length b.buf / 2))

pub consume-IsCompact : (b : RecvBuf) (n : ℕ) → IsCompact (consume b n)
unfolding consume compact
consume-IsCompact b n =
    let head = min (b.head + n) (length b.buf) in
    elim (Bool-cases (leb (length b.buf) head)) [
      | inl e ↦ rw e (omega arith, inl (omega arith))
      | inr e ↦ elim (Bool-cases (leb (length b.buf / 2) head && leb 512 head)) [
        | inl f ↦ rw (e, f) (omega arith, inl (omega arith))
        | inr f ↦ rw (e, f) (omega arith, ground arith)
      ]
    ]

rewound-IsCompact : (b : RecvBuf) → IsCompact b → IsCompact (rewound b)
unfolding rewound clear
rewound-IsCompact b c = elim (Bool-cases (ltb 0 b.head && (b.head == length b.buf))) [
  | inl e ↦ rw e (omega arith, inl (omega arith))
  | inr e ↦ rw e c
]

receive-head : (b : RecvBuf) (n : ℕ) (bytes : List ℕ) → (receive b n bytes).head ≡ (rewound b).head
unfolding receive
receive-head b n bytes = refl

grown :
    {head short long : ℕ}
    → (head < 512) ⊎ (head < short / 2)
    → short ≤ long
    → (head < 512) ⊎ (head < long / 2)
grown (inl few) h = inl few
grown (inr half) h = inr (omega arith)

pub receive-IsCompact :
    (b : RecvBuf) (n : ℕ) (bytes : List ℕ)
    → length bytes ≤ n
    → IsCompact b
    → IsCompact (receive b n bytes)
receive-IsCompact b n bytes h c =
    let c' = rewound-IsCompact b c in
    let longer : length (rewound b).buf ≤ length (receive b n bytes).buf =
      omega (arith, length-append (rewound b).buf bytes, ap length (receive-buf b n bytes h)) in
    rw (receive-head b n bytes) (omega arith, grown c'.1 longer)

-- A run of reads and of consumed frames, where no read gives more than it was offered, treats the
-- unread bytes as a queue, and from a compact buffer leaves a compact one: the bytes before the head
-- are fewer than 512, or less than half of the buffer.
pub run-queue :
    (us : List Use) (b : RecvBuf)
    → All Offered us
    → IsCompact b
    → (as_slice (run us b) ≡ queue us (as_slice b)) × IsCompact (run us b)
unfolding run
run-queue [] b h c = (refl, c)
run-queue (received n bytes ∷ us) b h c =
    let rest = run-queue us (receive b n bytes) h.1 (receive-IsCompact b n bytes h.0 c) in
    (rest.0 ∙ ap (queue us) (as_slice-receive b n bytes c.0 h.0), rest.1)
run-queue (consumed n ∷ us) b h c =
    let rest = run-queue us (consume b n) h.1 (consume-IsCompact b n) in
    (rest.0 ∙ ap (queue us) (as_slice-consume b n), rest.1)
