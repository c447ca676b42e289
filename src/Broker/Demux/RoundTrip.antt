-- ===== src/Broker/Demux/RoundTrip.antt =====
-- What a writer sends as Docker's multiplexed format is what the demuxer gives (stream-demux.ts).
use docker_webmail_gui.Broker.Demux.Chunks.{
  drain-stop, feed-concat, drain-step, push-drain, next_frame-nil,
}
use docker_webmail_gui.Broker.Demux.{
  DemuxedFrame, stream_kind_from_type, frame_size, next_frame, drain, feed, DockerStreamKind,
  new_demuxer, join_stream_bytes, same_kind, cons_frame,
}
use docker_webmail_gui.Common.{
  ℕ, zero, suc, ◌/◌, ◌%◌, ◌^◌, ◌≤◌, ◌<◌, ◌≡◌, refl, ap, none, some, List, [], ◌∷◌, ◌++◌, map,
  append-nil, append_assoc, arith, if◌then◌else◌, length, concat, length-append, take-length,
  drop-length, All,
}

-- What the writer sends: the header's stream type and the payload.
abbrev pub Sent : Type 0
Sent = ℕ × List ℕ

abbrev pub encode_frame : Sent → List ℕ
encode_frame (t, payload) =
    let n = length payload in
    t
    ∷ 0
    ∷ 0
    ∷ 0
    ∷ (n / 2 ^ 24 % 256)
    ∷ (n / 2 ^ 16 % 256)
    ∷ (n / 2 ^ 8 % 256)
    ∷ (n % 256)
    ∷ payload

abbrev pub encode : List Sent → List ℕ
encode [] = []
encode (w ∷ ws) = encode_frame w ++ encode ws

-- The payload's length fits the header's 32 bits.
abbrev pub Fits : Sent → Type 0
Fits w = length w.1 < 2 ^ 32

abbrev pub received : Sent → DemuxedFrame
received w = record { stream = stream_kind_from_type w.0; bytes = w.1 }

frame_size-encode :
    (w : Sent) (rest : List ℕ) → Fits w → frame_size (encode_frame w ++ rest) ≡ length w.1
unfolding frame_size
frame_size-encode (t, payload) rest h = omega arith

next_frame-encode :
    (w : Sent) (rest : List ℕ)
    → Fits w
    → next_frame (encode_frame w ++ rest) ≡ some (received w, rest)
unfolding next_frame
next_frame-encode (t, payload) rest h = ground (
  arith,
  frame_size-encode (t, payload) rest h,
  length-append payload rest,
  take-length payload rest,
  drop-length payload rest,
)

drain-encode :
    (f : ℕ) (ws : List Sent) (tail : List ℕ)
    → length (encode ws ++ tail) ≤ f
    → All Fits ws
    → next_frame tail ≡ none
    → drain f (encode ws ++ tail) ≡ (map received ws, tail)
drain-encode f [] tail h fits stuck = drain-stop f tail stuck
drain-encode zero ((t, payload) ∷ ws) tail h fits stuck = absurd (omega arith)
drain-encode (suc f) (w ∷ ws) tail h fits stuck =
    let step : next_frame ((encode_frame w ++ encode ws) ++ tail)
        ≡ some (received w, encode ws ++ tail) =
      rw append_assoc (next_frame-encode w (encode ws ++ tail) fits.0) in
    rw (drain-step f ((encode_frame w ++ encode ws) ++ tail) (received w) (encode ws ++ tail) step)
      (ap (cons_frame (received w)) (
        drain-encode f ws tail
          (omega (
            arith,
            length-append (encode ws) tail,
            length-append (encode_frame w ++ encode ws) tail,
            length-append (encode_frame w) (encode ws),
          ))
          fits.1 stuck))

-- Whatever the chunks are that deliver the encoding of a list of frames, each of at most 2^32 - 1
-- payload bytes, and then an incomplete rest, the demuxer gives those frames, in order, and keeps
-- exactly the rest in its buffer.
pub feed-encode :
    (chunks : List (List ℕ)) (ws : List Sent) (tail : List ℕ)
    → concat chunks ≡ encode ws ++ tail
    → All Fits ws
    → next_frame tail ≡ none
    → feed new_demuxer chunks ≡ (map received ws, record { buffer = tail })
unfolding next_frame
feed-encode chunks ws tail h fits stuck = rw (
  feed-concat new_demuxer chunks refl,
  h,
  push-drain new_demuxer (encode ws ++ tail) (length (encode ws ++ tail)) (omega arith),
  drain-encode (length (encode ws ++ tail)) ws tail (omega arith) fits stuck,
)

-- The payloads that a writer sent to one stream, one after the other.
abbrev pub sent_to : DockerStreamKind → List Sent → List ℕ
sent_to kind [] = []
sent_to kind (w ∷ ws) =
    if same_kind (stream_kind_from_type w.0) kind then w.1 ++ sent_to kind ws else sent_to kind ws

join_stream_bytes-received :
    (ws : List Sent) (kind : DockerStreamKind)
    → join_stream_bytes (map received ws) kind ≡ sent_to kind ws
unfolding join_stream_bytes
join_stream_bytes-received [] kind = refl
join_stream_bytes-received ((t, payload) ∷ ws) kind =
    ground (arith, join_stream_bytes-received ws kind)

-- The bytes that are decoded as one stream's text are all that was sent to it, in order, with no
-- byte of the other stream, wherever the frames and the chunks were cut.
pub join_stream_bytes-feed :
    (chunks : List (List ℕ)) (ws : List Sent) (kind : DockerStreamKind)
    → concat chunks ≡ encode ws
    → All Fits ws
    → join_stream_bytes (feed new_demuxer chunks).0 kind ≡ sent_to kind ws
join_stream_bytes-feed chunks ws kind h fits =
    rw (feed-encode chunks ws [] (rw append-nil h) fits next_frame-nil)
      (join_stream_bytes-received ws kind)
