-- ===== src/Wire/Tests.antt =====
-- Bodies, buffers and streams at concrete bytes.
use bnet_command_center.Base.{
  ℕ, ◌≡◌, refl, inl, List, concat, take, drop, All, [], ◌∷◌, ok, err, arith,
}
use bnet_command_center.Wire.{bad_magic, unterminated_string}
use bnet_command_center.Wire.Reader
use bnet_command_center.Wire.Writer
use bnet_command_center.Wire.Number.{le_bytes, as_ascii}
use bnet_command_center.Wire.Fields
use bnet_command_center.Wire.Fields.{
  Shape, Value, number, fourcc, bytes, cstr, num, str, write_all, read_all,
}
use bnet_command_center.Wire.Fields.RoundTrip.{read_all-write_all}
use bnet_command_center.Wire.Fields.Bounds.{Within, read_all-Within}
use bnet_command_center.Wire.Buffer.{new, as_slice, consume, receive}
use bnet_command_center.Wire.Buffer.Queue.{
  Use, received, consumed, run, queue, IsCompact, run-queue,
}
use bnet_command_center.Wire.Frame.{Frame}
use bnet_command_center.Wire.Bncs
use bnet_command_center.Wire.Mcp
use bnet_command_center.Wire.Line
use bnet_command_center.Wire.Stream.{blocked, closed, unread, drain, reads}
use bnet_command_center.Wire.Stream.Parse.{parse}
use bnet_command_center.Wire.Stream.Reads.{Offered, reads_from_new-parse}
use bnet_command_center.Wire.Stream.Ends.{Ended, drain-Ended}
use bnet_command_center.Wire.Stream.RoundTrip.{encode_all, reads-bncs}

abbrev shapes : List Shape
shapes = number 4 ∷ fourcc ∷ bytes 2 ∷ cstr 8 ∷ []

abbrev values : List Value
values = num 4660 ∷ num 1398030674 ∷ str (7 ∷ 0 ∷ []) ∷ str (97 ∷ 98 ∷ []) ∷ []

abbrev body : List ℕ
body = 52 ∷ 18 ∷ 0 ∷ 0 ∷ 82 ∷ 65 ∷ 84 ∷ 83 ∷ 7 ∷ 0 ∷ 97 ∷ 98 ∷ 0 ∷ []

program : Unit {0}
unfolding Writer.new Writer.finish Fields.write write_all le_bytes as_ascii Reader.new Fields.read
    read_all take drop new as_slice run receive consume reads drain Bncs.framing Mcp.framing
    Line.framing Bncs.encode_frame Mcp.encode_frame Line.encode_line encode_all
program = tt

written : Writer.finish (write_all Writer.new shapes values) ≡ body
unfolding program
written = refl

read_all-write_all_example :
    read_all shapes (Reader.new (Writer.finish (write_all Writer.new shapes values)))
    ≡ ok (values, record { buf = Writer.finish (write_all Writer.new shapes values); pos = 13 })
unfolding program
read_all-write_all_example =
    read_all-write_all shapes values (omega arith, (omega arith, (refl, ((refl, omega arith), tt))))

-- A body that ends within its last text.
short : read_all shapes (Reader.new (take 12 body)) ≡ err unterminated_string
unfolding program
short = refl

read_all-Within_example : Within (Reader.new body) (read_all shapes (Reader.new body))
unfolding program
read_all-Within_example = read_all-Within shapes (Reader.new body) (omega arith)

abbrev uses : List Use
uses = received 4 (1 ∷ 2 ∷ 3 ∷ []) ∷ consumed 2 ∷ received 4 (4 ∷ []) ∷ []

run-queue_example : (as_slice (run uses new) ≡ queue uses (as_slice new)) × IsCompact (run uses new)
unfolding program
run-queue_example =
    run-queue uses new (omega arith, (tt, (omega arith, tt))) (omega arith, inl (omega arith))

three_left : as_slice (run uses new) ≡ 3 ∷ 4 ∷ []
unfolding program
three_left = refl

abbrev ping : Frame
ping = record { id = 37; body = 1 ∷ 2 ∷ [] }

abbrev null : Frame
null = record { id = 0; body = [] }

-- A ping and a null frame, cut within the ping's header and within the second frame.
abbrev chunks : List (List ℕ)
chunks = (255 ∷ 37 ∷ 6 ∷ []) ∷ (0 ∷ 1 ∷ 2 ∷ 255 ∷ 0 ∷ []) ∷ (4 ∷ 0 ∷ []) ∷ []

offered : All (Offered (Bncs.framing 8192) 8) chunks
offered =
    ((omega arith, omega arith), ((omega arith, omega arith), ((omega arith, omega arith), tt)))

found : unread (reads (Bncs.framing 8192) 8 chunks new) ≡ blocked (ping ∷ null ∷ []) []
unfolding program
found = refl

reads_from_new-parse_example :
    unread (reads (Bncs.framing 8192) 8 chunks new) ≡ parse (Bncs.framing 8192) (concat chunks)
reads_from_new-parse_example = reads_from_new-parse (Bncs.framing 8192) 8 chunks offered

-- The same bytes with a wrong first byte in the second frame: the first frame, and then the error.
spoiled :
    unread (reads (Bncs.framing 8192) 8 ((255 ∷ 37 ∷ 4 ∷ 0 ∷ 1 ∷ []) ∷ (0 ∷ 4 ∷ 0 ∷ []) ∷ []) new)
    ≡ closed (record { id = 37; body = [] } ∷ []) (bad_magic 1)
unfolding program
spoiled = refl

drain-Ended_example :
    Ended (drain (Bncs.framing 8192) 4 (record { buf = 255 ∷ 0 ∷ 4 ∷ []; head = 0 }))
unfolding program
drain-Ended_example =
    drain-Ended (Bncs.framing 8192) 4 (record { buf = 255 ∷ 0 ∷ 4 ∷ []; head = 0 }) (omega arith)

reads-bncs_example : unread (reads (Bncs.framing 8192) 8 chunks new) ≡ blocked (ping ∷ null ∷ []) []
unfolding program
reads-bncs_example =
    reads-bncs 8192 8 chunks (ping ∷ null ∷ []) offered (omega arith, (omega arith, tt)) refl

abbrev mcp_chunks : List (List ℕ)
mcp_chunks = (5 ∷ []) ∷ (0 ∷ 1 ∷ 9 ∷ 9 ∷ 3 ∷ 0 ∷ []) ∷ (7 ∷ []) ∷ []

-- The line `hi`, an empty line, and a line that ends in a carriage return of its own.
abbrev lines : List (List ℕ)
lines = (104 ∷ 105 ∷ []) ∷ [] ∷ (13 ∷ []) ∷ []

abbrev line_chunks : List (List ℕ)
line_chunks = (104 ∷ 105 ∷ 13 ∷ []) ∷ (10 ∷ 13 ∷ 10 ∷ 13 ∷ 13 ∷ 10 ∷ []) ∷ []
