-- ===== src/Broker/Demux.antt =====
-- apps/broker/src/stream-demux.ts: Docker's log framing. A byte is a natural number. The loop of
-- `push` runs on fuel, one unit for each byte in the buffer; every frame takes at least eight.
pub mod Chunks
pub mod RoundTrip
mod Tests
use docker_webmail_gui.Common.{
  ℕ, zero, suc, ◌+◌, ◌-◌, ◌*◌, ◌/◌, ◌%◌, ◌^◌, ◌≤◌, ◌<◌, String, ◌≡◌, refl, sym, ap, ◌∙◌, ◌≢◌, ◌↔◌,
  ◌⊎◌, inl, inr, Bool, true, false, not, ◌&&◌, ◌||◌, Option, none, some, List, [], ◌∷◌, ◌++◌, map,
  append-nil, append_assoc, arith, ◌==s◌, eq_iff, ltb, leb, ◌==◌, if◌then◌else◌, ltb→lt,
  ltb-false→le, lt→ltb, le→ltb-false, leb→le, ==_iff, Bool-cases, Option-cases, length, take, drop,
  get_or, concat, length-append, take-append-drop, length-drop, take-append, drop-append,
  get_or-append, take-length, drop-length, any, all, filter, find, All, All-append,
}

pub data DockerStreamKind : Type 0 where
  stdout stderr : DockerStreamKind

pub record DemuxedFrame : Type 0 where
  pub stream : DockerStreamKind
  pub bytes : List ℕ

abbrev pub header_length : ℕ
header_length = 8

abbrev pub stream_type_stderr : ℕ
stream_type_stderr = 2

unfoldable pub stream_kind_from_type : ℕ → DockerStreamKind
stream_kind_from_type t = if t == stream_type_stderr then stderr else stdout

-- `readUInt32BE(SIZE_OFFSET)`, the offset being 4.
pub frame_size : List ℕ → ℕ
frame_size b = get_or b 4 0 * 2 ^ 24 + get_or b 5 0 * 2 ^ 16 + get_or b 6 0 * 2 ^ 8 + get_or b 7 0

abbrev take_frame : List ℕ → DemuxedFrame × List ℕ
take_frame b = (
  record {
    stream = stream_kind_from_type (get_or b 0 0);
    bytes = drop header_length (take (header_length + frame_size b) b);
  },
  drop (header_length + frame_size b) b,
)

-- One round of the loop: the first frame and what follows it, or `none` where the loop breaks.
pub next_frame : List ℕ → Option (DemuxedFrame × List ℕ)
next_frame b =
    if ltb (length b) header_length
    then none
    else if ltb (length b) (header_length + frame_size b)
    then none
    else some (take_frame b)

abbrev pub cons_frame : DemuxedFrame → List DemuxedFrame × List ℕ → List DemuxedFrame × List ℕ
cons_frame frame (frames, rest) = (frame ∷ frames, rest)

pub drain : ℕ → List ℕ → List DemuxedFrame × List ℕ
drain zero b = ([], b)
drain (suc fuel) b = elim (next_frame b) [
  | none ↦ ([], b)
  | some (frame, rest) ↦ cons_frame frame (drain fuel rest)
]

pub record DockerStreamDemuxer : Type 0 where
  pub buffer : List ℕ

abbrev pub new_demuxer : DockerStreamDemuxer
new_demuxer = record { buffer = [] }

abbrev joined : List ℕ → List ℕ → List ℕ
joined buffer chunk = if length buffer == 0 then chunk else buffer ++ chunk

pub push : DockerStreamDemuxer → List ℕ → List DemuxedFrame × DockerStreamDemuxer
unfolding drain next_frame stream_kind_from_type frame_size
push d chunk =
    let b = joined d.buffer chunk in
    let (frames, rest) = drain (length b) b in (frames, record { buffer = rest })

pub has_pending_partial_frame : DockerStreamDemuxer → Bool
has_pending_partial_frame d = ltb 0 (length d.buffer)

pub demux_non_tty_buffer : List ℕ → List DemuxedFrame
unfolding push
demux_non_tty_buffer buffer = (push new_demuxer buffer).0

pub decode_tty_buffer : List ℕ → List DemuxedFrame
decode_tty_buffer buffer =
    if length buffer == 0 then [] else record { stream = stdout; bytes = buffer } ∷ []

abbrev pub same_kind : DockerStreamKind → DockerStreamKind → Bool
same_kind stdout stdout = true
same_kind stderr stderr = true
same_kind _ _ = false

-- The bytes that `joinStreamText` decodes, in one go, as UTF-8.
pub join_stream_bytes : List DemuxedFrame → DockerStreamKind → List ℕ
join_stream_bytes frames kind =
    concat (map (λ f. f.bytes) (filter (λ f. same_kind f.stream kind) frames))

pub demux_docker_stream : List ℕ → Bool → List DemuxedFrame
unfolding decode_tty_buffer demux_non_tty_buffer
demux_docker_stream buffer tty =
    if tty then decode_tty_buffer buffer else demux_non_tty_buffer buffer

-- A source that delivers its bytes chunk by chunk.
pub feed : DockerStreamDemuxer → List (List ℕ) → List DemuxedFrame × DockerStreamDemuxer
unfolding push
feed d [] = ([], d)
feed d (chunk ∷ chunks) =
    let (frames, d') = push d chunk in let (later, d'') = feed d' chunks in (frames ++ later, d'')
