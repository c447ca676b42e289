-- ===== src/Broker/Demux/Tests.antt =====
-- Runs of the demuxer, and the theorems at concrete streams.
use docker_webmail_gui.Broker.Demux.Chunks.{feed-concat, next_frame-nil}
use docker_webmail_gui.Common.{◌≡◌, ◌∷◌, map, concat, [], true, arith, refl}
use docker_webmail_gui.Broker.Demux.RoundTrip.{Sent, join_stream_bytes-feed, received, feed-encode}
use docker_webmail_gui.Broker.Demux.{
  feed, push, List, has_pending_partial_frame, new_demuxer, join_stream_bytes, demux_docker_stream,
  next_frame, ℕ, stderr, frame_size, stream_kind_from_type, stdout,
}

demux : Unit {0}
unfolding feed push join_stream_bytes next_frame frame_size stream_kind_from_type
    demux_docker_stream
demux = tt

abbrev hello : Sent
hello = (1, 104 ∷ 105 ∷ [])

abbrev oops : Sent
oops = (2, 33 ∷ [])

-- Cut inside the second header.
abbrev cuts : List (List ℕ)
cuts =
    (1 ∷ 0 ∷ 0 ∷ [])
    ∷ (0 ∷ 0 ∷ 0 ∷ 0 ∷ 2 ∷ 104 ∷ 105 ∷ 2 ∷ 0 ∷ [])
    ∷ (0 ∷ 0 ∷ 0 ∷ 0 ∷ 0 ∷ 1 ∷ 33 ∷ [])
    ∷ []

feed-cuts : feed new_demuxer cuts ≡ (
  record { stream = stdout; bytes = 104 ∷ 105 ∷ [] }
      ∷ record { stream = stderr; bytes = 33 ∷ [] }
      ∷ [],
  record { buffer = [] },
)
unfolding demux
feed-cuts = refl

push_partial : has_pending_partial_frame (push new_demuxer (1 ∷ 0 ∷ [])).1 ≡ true
unfolding demux has_pending_partial_frame
push_partial = refl

tty_is_one_frame :
    demux_docker_stream (7 ∷ 8 ∷ []) true ≡ record { stream = stdout; bytes = 7 ∷ 8 ∷ [] } ∷ []
unfolding demux
tty_is_one_frame = refl

feed-concat_example : feed new_demuxer cuts ≡ push new_demuxer (concat cuts)
feed-concat_example = feed-concat new_demuxer cuts next_frame-nil

feed-encode_example :
    feed new_demuxer cuts ≡ (map received (hello ∷ oops ∷ []), record { buffer = [] })
feed-encode_example = feed-encode cuts (hello ∷ oops ∷ []) [] refl (omega arith) next_frame-nil

join_stream_bytes-feed_example : join_stream_bytes (feed new_demuxer cuts).0 stderr ≡ 33 ∷ []
unfolding stream_kind_from_type
join_stream_bytes-feed_example =
    join_stream_bytes-feed cuts (hello ∷ oops ∷ []) stderr refl (omega arith)
