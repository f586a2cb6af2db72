-- ===== src/Wire/Buffer.antt =====
-- `RecvBuf` (crates/bnetcc-proto/src/buf.rs): what a socket has delivered and the node has not read.
pub mod Queue
use bnet_command_center.Base.{
  ℕ, zero, suc, ◌+◌, ◌-◌, ◌/◌, ◌≤◌, ◌<◌, ◌≡◌, refl, ◌∙◌, sym, ap, List, [], ◌∷◌, ◌++◌, length,
  length-append, length-drop, take, drop, drop_zero, drop-drop, drop-all, drop-append, take-length,
  min, ltb, leb, ◌==◌, ◌&&◌, if◌then◌else◌, Bool, true, false, Bool-cases, inl, inr, arith,
}
use mathlib.Core.List.{append_assoc}

pub record RecvBuf : Type 0 where
  pub buf : List ℕ
  pub head : ℕ

unfoldable pub new : RecvBuf
new = record { buf = []; head = 0 }

-- The unread bytes.
unfoldable pub as_slice : RecvBuf → List ℕ
as_slice b = drop b.head b.buf

unfoldable pub len : RecvBuf → ℕ
len b = length b.buf - b.head

pub is_empty : RecvBuf → Bool
unfolding len
is_empty b = len b == 0

unfoldable pub extend_from_slice : RecvBuf → List ℕ → RecvBuf
extend_from_slice b received = record b { buf = b.buf ++ received }

unfoldable pub clear : RecvBuf → RecvBuf
clear b = record { buf = []; head = 0 }

-- The end of `consume`, with the head advanced.
unfoldable pub compact : RecvBuf → RecvBuf
compact b =
    if leb (length b.buf) b.head
    then record { buf = []; head = 0 }
    else if leb (length b.buf / 2) b.head && leb 512 b.head
    then record { buf = drop b.head b.buf; head = 0 }
    else b

unfoldable pub consume : RecvBuf → ℕ → RecvBuf
unfolding compact
consume b n = compact (record b { head = min (b.head + n) (length b.buf) })

abbrev pub zeros : ℕ → List ℕ
zeros zero = []
zeros (suc n) = 0 ∷ zeros n

-- A buffer that is read to its end starts afresh.
unfoldable pub rewound : RecvBuf → RecvBuf
unfolding clear
rewound b = if ltb 0 b.head && (b.head == length b.buf) then clear b else b

-- The buffer, and where its writable tail starts.
unfoldable pub writable_tail : RecvBuf → ℕ → RecvBuf × ℕ
unfolding rewound
writable_tail b n = let b' = rewound b in (record b' { buf = b'.buf ++ zeros n }, length b'.buf)

-- What a socket's read does with the tail: it stores its data at the tail's start.
unfoldable pub store : RecvBuf → ℕ → List ℕ → RecvBuf
store b start received = record b {
  buf = take start b.buf ++ (received ++ drop (start + length received) b.buf);
}

unfoldable pub commit : RecvBuf → ℕ → ℕ → RecvBuf
commit b written requested =
    let excess = requested - written in record b { buf = take (length b.buf - excess) b.buf }

-- One read of a socket that was offered `n` bytes.
unfoldable pub receive : RecvBuf → ℕ → List ℕ → RecvBuf
unfolding writable_tail store commit
receive b n received =
    let tail = writable_tail b n in commit (store tail.0 tail.1 received) (length received) n

-- The head is never past the end.
abbrev pub IsValid : RecvBuf → Type 0
IsValid b = b.head ≤ length b.buf

as_slice-compact : (b : RecvBuf) → as_slice (compact b) ≡ as_slice b
unfolding as_slice compact drop
as_slice-compact b = elim (Bool-cases (leb (length b.buf) b.head)) [
  | inl e ↦ rw (e, drop-all b.head b.buf (ground arith))
  | inr e ↦ elim (Bool-cases (leb (length b.buf / 2) b.head && leb 512 b.head)) [
    | inl f ↦ rw (e, f, drop_zero (drop b.head b.buf))
    | inr f ↦ rw (e, f)
  ]
]

drop-min : {A : Type 0} (n : ℕ) (xs : List A) → drop (min n (length xs)) xs ≡ drop n xs
unfolding drop
drop-min n [] = refl
drop-min n (x ∷ xs) = ground (arith, drop-min (n - 1) xs)

-- Reading `n` bytes leaves the others, whether or not the buffer is compacted.
pub as_slice-consume : (b : RecvBuf) (n : ℕ) → as_slice (consume b n) ≡ drop n (as_slice b)
unfolding as_slice consume
as_slice-consume b n =
    as_slice-compact (record b { head = min (b.head + n) (length b.buf) })
    ∙ drop-min (b.head + n) b.buf
    ∙ sym (drop-drop n b.head b.buf)

as_slice-rewound : (b : RecvBuf) → as_slice (rewound b) ≡ as_slice b
unfolding as_slice rewound clear drop
as_slice-rewound b = elim (Bool-cases (ltb 0 b.head && (b.head == length b.buf))) [
  | inl e ↦ rw (e, drop-all b.head b.buf (ground arith))
  | inr e ↦ rw e
]

length-zeros : (n : ℕ) → length (zeros n) ≡ n
length-zeros zero = refl
length-zeros (suc n) = ap suc (length-zeros n)

-- The tail's zeros beyond the data are cut off.
stored :
    (xs tail received : List ℕ)
    → length received ≤ length tail
    → let whole = xs ++ (received ++ drop (length xs + length received) (xs ++ tail)) in
      take (length whole - (length tail - length received)) whole ≡ xs ++ received
stored xs tail received h =
    let left = drop (length xs + length received) (xs ++ tail) in
    let over : length left ≡ length tail - length received =
      omega
        (arith, length-drop (length xs + length received) (xs ++ tail), length-append xs tail) in
    let same : (xs ++ received) ++ left ≡ xs ++ (received ++ left) =
      append_assoc xs received left in
    let size : length ((xs ++ received) ++ left) - (length tail - length received)
        ≡ length (xs ++ received) =
      omega (arith, length-append (xs ++ received) left, over) in
    rw (sym same, size) (take-length (xs ++ received) left)

-- A read of a socket adds the data at the tail.
pub receive-buf :
    (b : RecvBuf) (n : ℕ) (received : List ℕ)
    → length received ≤ n
    → (receive b n received).buf ≡ (rewound b).buf ++ received
unfolding receive writable_tail store commit
receive-buf b n received h =
    let size = length-zeros n in
    rw (take-length (rewound b).buf (zeros n), ap (λ (k : ℕ). k - length received) (sym size))
      (stored (rewound b).buf (zeros n) received (omega arith))

pub rewound-IsValid : (b : RecvBuf) → IsValid b → IsValid (rewound b)
unfolding rewound clear
rewound-IsValid b v = elim (Bool-cases (ltb 0 b.head && (b.head == length b.buf))) [
  | inl e ↦ rw e (omega arith)
  | inr e ↦ rw e v
]

pub as_slice-receive :
    (b : RecvBuf) (n : ℕ) (received : List ℕ)
    → IsValid b
    → length received ≤ n
    → as_slice (receive b n received) ≡ as_slice b ++ received
unfolding as_slice receive
as_slice-receive b n received v h =
    ap (drop (rewound b).head) (receive-buf b n received h)
    ∙ drop-append (rewound b).head (rewound b).buf received (rewound-IsValid b v)
    ∙ ap (λ (xs : List ℕ). xs ++ received) (as_slice-rewound b)
